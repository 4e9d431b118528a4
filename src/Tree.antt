-- ===== src/Tree.antt =====
-- internal/zkregistry: the sparse Merkle tree, its proofs, and the batches that it writes to.
pub mod Result
pub mod Sparse
pub mod Merkle
pub mod Proofs
pub mod Batch
pub mod Insert
pub mod Total
pub mod Buffer
pub mod Fresh
pub mod Written
pub mod History
pub mod Served
pub mod Leaves
pub mod InPlace
pub mod Together
pub mod InsertLeaves
pub mod TotalLeaves
pub mod Random
pub mod Cancelled
pub mod Binding
