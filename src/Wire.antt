-- ===== src/Wire.antt =====
-- The protobuf wire layer under gen/ts: reader and writer, the decoding loop, and their laws.
pub mod Binary
pub mod Loop
pub mod Steps
pub mod Fields
pub mod Nested
pub mod Ends
pub mod Packed
pub mod Keeps
