-- ===== src/Samples.antt =====
-- Concrete parameters, and the theorems at concrete inputs.
mod Text
mod Unary
mod Varint
mod Concrete
mod Messages
mod Client
mod Tree
mod Leaves
mod Descriptors
mod Proofs
mod Inputs
