-- ===== src/Message.antt =====
-- interface MessageFns<T> of gen/ts, and what a message that keeps it promises.
pub mod Fns
pub mod Laws
pub mod Scalar
pub mod Row
pub mod Kinds
pub mod Packed
pub mod Nested
pub mod Rows
pub mod Statements
pub mod Fields
