-- ===== src/Tree/Written.antt =====
-- A tree after its batch is written to the storage (`batch.WriteSync` of the registry): the storage
-- then gives what the batch gave, and for other leaves what it gave before. How the storage keeps
-- leaves is a parameter here; the storage in use does not keep the value 0.
use merkle_proof_service.Prelude.{ℕ, ◌≤◌, ◌≡◌, refl, Option, le→ltb_false}
use merkle_proof_service.Tree.Result.{
  Result, ok, err, not_found, invalid_level, invalid_depth, invalid_hash, cancelled, storage_failed,
  no_empty_leaf, panic,
}
use merkle_proof_service.Tree.Sparse.{
  SparseMerkleTree, TreeLeafGetterSetter, get_empty_branch_value, calculate_empty_branch_hashes,
  or_empty, get_leaf_from_storage, or_storage, get_leaf_from_batch_or_storage,
}

-- What the storage gives of a leaf, from what the batch gave and what it gave before.
unfoldable pub written_leaf : Result ℕ → Result ℕ → Result ℕ
written_leaf (ok leaf) before = ok leaf
written_leaf (err not_found) before = before
written_leaf (err e) before = err e

abbrev pub written_tree :
    {B : Type 0} → SparseMerkleTree → TreeLeafGetterSetter B → B → SparseMerkleTree
written_tree t batch b = record {
  empty_leaf = t.empty_leaf;
  depth = t.depth;
  storage_leaf_getter =
      λ level i. written_leaf (batch.get_leaf b level i) (t.storage_leaf_getter level i);
}

module _ (poseidon : ℕ → ℕ → Option ℕ) (t : SparseMerkleTree) {B : Type 0}
    (batch : TreeLeafGetterSetter B) where
  or_empty-written :
      (b : B) (level : ℕ) (r : Result ℕ)
      → or_empty poseidon (written_tree t batch b) level r ≡ or_empty poseidon t level r
  unfolding or_empty get_empty_branch_value calculate_empty_branch_hashes
  or_empty-written b level (ok v) = refl
  or_empty-written b level (err not_found) = refl
  or_empty-written b level (err invalid_level) = refl
  or_empty-written b level (err invalid_depth) = refl
  or_empty-written b level (err invalid_hash) = refl
  or_empty-written b level (err cancelled) = refl
  or_empty-written b level (err storage_failed) = refl
  or_empty-written b level (err no_empty_leaf) = refl
  or_empty-written b level (err panic) = refl

  or_empty-written_leaf :
      (b : B) (level index : ℕ) (r : Result ℕ)
      → level ≤ t.depth
      → or_empty poseidon
          (written_tree t batch b)
          level
          (written_leaf r (t.storage_leaf_getter level index))
        ≡ or_storage poseidon t batch level index r
  unfolding or_empty or_storage written_leaf get_leaf_from_storage
  or_empty-written_leaf b level index (ok v) p = refl
  or_empty-written_leaf b level index (err not_found) p =
      rw (le→ltb_false t.depth level p)
        (or_empty-written b level (t.storage_leaf_getter level index))
  or_empty-written_leaf b level index (err invalid_level) p = refl
  or_empty-written_leaf b level index (err invalid_depth) p = refl
  or_empty-written_leaf b level index (err invalid_hash) p = refl
  or_empty-written_leaf b level index (err cancelled) p = refl
  or_empty-written_leaf b level index (err storage_failed) p = refl
  or_empty-written_leaf b level index (err no_empty_leaf) p = refl
  or_empty-written_leaf b level index (err panic) p = refl

  -- The written storage gives the tree that was seen through the batch.
  pub written_tree-through :
      (b : B) (level index : ℕ)
      → level ≤ t.depth
      → get_leaf_from_storage poseidon (written_tree t batch b) level index
        ≡ get_leaf_from_batch_or_storage poseidon t batch b level index
  unfolding get_leaf_from_storage get_leaf_from_batch_or_storage
  written_tree-through b level index p =
      rw (le→ltb_false t.depth level p)
        (or_empty-written_leaf b level index (batch.get_leaf b level index) p)

  -- An empty batch leaves the tree as the storage has it.
  pub empty_batch-through :
      (b : B) (level index : ℕ)
      → batch.get_leaf b level index ≡ err not_found
      → get_leaf_from_batch_or_storage poseidon t batch b level index
        ≡ get_leaf_from_storage poseidon t level index
  unfolding get_leaf_from_batch_or_storage or_storage
  empty_batch-through b level index e = rw e refl
