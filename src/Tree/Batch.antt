-- ===== src/Tree/Batch.antt =====
-- What the tree relies on of a batch, and the tree as it is seen through one.
use merkle_proof_service.Prelude.{
  ℕ, ◌^◌, ◌<◌, ◌≡◌, refl, ◌&&◌, Option, inl, inr, ◌==◌, if◌then◌else◌, Bool-cases,
}
use merkle_proof_service.Tree.Result.{ok}
use merkle_proof_service.Tree.Sparse.{
  SparseMerkleTree, TreeLeafGetterSetter, or_storage, get_leaf_from_batch_or_storage,
}

-- The interface's promise: a write succeeds, and a read gives the last value written at its level and
-- index, or what the batch gave before.
pub record IsBatch {B : Type 0} (batch : TreeLeafGetterSetter B) : Type 0 where
  pub writes :
      (b : B) (level index value : ℕ) → (b' : B) × (batch.set_leaf b level index value ≡ ok b')
  pub reads :
      (b b' : B) (level index value l i : ℕ)
      → level < 256
      → index < 2 ^ 32
      → l < 256
      → i < 2 ^ 32
      → batch.set_leaf b level index value ≡ ok b'
      → batch.get_leaf b' l i
        ≡ (if level == l && index == i then ok value else batch.get_leaf b l i)

module _ (poseidon : ℕ → ℕ → Option ℕ) (t : SparseMerkleTree) {B : Type 0}
    (batch : TreeLeafGetterSetter B) (laws : IsBatch batch) where
  pub view_set :
      (b b' : B) (level index value l i : ℕ)
      → level < 256
      → index < 2 ^ 32
      → l < 256
      → i < 2 ^ 32
      → batch.set_leaf b level index value ≡ ok b'
      → get_leaf_from_batch_or_storage poseidon t batch b' l i ≡ (
          if level == l && index == i
          then ok value
          else get_leaf_from_batch_or_storage poseidon t batch b l i)
  unfolding get_leaf_from_batch_or_storage or_storage
  view_set b b' level index value l i h1 h2 h3 h4 e = elim (Bool-cases (level == l && index == i)) [
    | inl same ↦ rw (laws.reads b b' level index value l i h1 h2 h3 h4 e, same) refl
    | inr other ↦ rw (laws.reads b b' level index value l i h1 h2 h3 h4 e, other) refl
  ]
