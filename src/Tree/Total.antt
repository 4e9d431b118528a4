-- ===== src/Tree/Total.antt =====
-- The outcome of `InsertLeaf` of internal/zkregistry/sparse_tree.go, errors or none.
use merkle_proof_service.Prelude.{
  ℕ, zero, suc, ◌+◌, ◌*◌, ◌/◌, ◌^◌, ◌≤◌, ◌<◌, ◌≡◌, refl, ◌∙◌, Option, ◌&&◌, inl, inr, arith, ◌==◌,
  Bool-cases,
}
use merkle_proof_service.Tree.Result.{ok, ◌>>=◌}
use merkle_proof_service.Tree.Sparse.{
  SparseMerkleTree, TreeLeafGetterSetter, calculate_hash, get_leaf_from_batch_or_storage,
  calculate_hash_for_node, insert_levels, insert_leaf,
}
use merkle_proof_service.Tree.Merkle.{IsHash, IsReadable}
use merkle_proof_service.Tree.Batch.{IsBatch, view_set}
use merkle_proof_service.Tree.Insert.{calculate_hash_for_node-join}

module _ (poseidon : ℕ → ℕ → Option ℕ) (t : SparseMerkleTree) {B : Type 0}
    (batch : TreeLeafGetterSetter B) (laws : IsBatch batch) (shallow : t.depth ≤ 32)
    (good : ℕ → Type 0) (hashes : IsHash (calculate_hash poseidon) good) where
  -- The tree can be read through the batch.
  abbrev pub IsReadableThrough : B → Type 0
  IsReadableThrough b = IsReadable good (get_leaf_from_batch_or_storage poseidon t batch b) t.depth

  pub set_leaf-IsReadableThrough :
      (b b' : B) (level index value : ℕ)
      → level < 256
      → index < 2 ^ 32
      → good value
      → batch.set_leaf b level index value ≡ ok b'
      → IsReadableThrough b
      → IsReadableThrough b'
  set_leaf-IsReadableThrough b b' level index value p q fine set readable l i below small =
      let step =
        view_set poseidon t batch laws b b' level index value l i p q (omega arith) small set in
      elim (Bool-cases (level == l && index == i)) [
        | inl same ↦ (value, rw same at step, fine)
        | inr other ↦ let (v, e, g) = readable l i below small in (v, (rw other at step) ∙ e, g)
      ]

  pub node_hash :
      (b : B) (level index : ℕ)
      → level < t.depth
      → index < 2 ^ 32
      → IsReadableThrough b
      → (h : ℕ) × (calculate_hash_for_node poseidon t batch b level index ≡ ok h) × good h
  node_hash b level index below small readable =
      let (x, ex, gx) = readable level (2 * (index / 2)) (omega arith) (omega arith) in
      let (y, ey, gy) = readable level (2 * (index / 2) + 1) (omega arith) (omega arith) in
      let (h, eh, gh) = hashes x y gx gy in
      (
        h,
        calculate_hash_for_node-join poseidon t batch laws shallow b level index small
            ∙ (rw (ex, ◌>>=◌) (rw (ey, ◌>>=◌) eh)),
        gh,
      )

  insert_levels-IsReadableThrough :
      (k level index : ℕ) (b : B)
      → level + k ≡ t.depth
      → index < 2 ^ 32
      → IsReadableThrough b
      → (b' : B) × (insert_levels poseidon t batch k level index b ≡ ok b') × IsReadableThrough b'
  unfolding insert_levels
  insert_levels-IsReadableThrough zero level index b e small readable = (b, refl, readable)
  insert_levels-IsReadableThrough (suc k) level index b e small readable =
      let (h, eh, gh) = node_hash b level index (omega arith) small readable in
      let (b1, set) = laws.writes b (level + 1) (index / 2) h in
      let (b', rest, readable') =
        insert_levels-IsReadableThrough k (level + 1) (index / 2) b1 (omega arith) (omega arith) (
          set_leaf-IsReadableThrough b b1 (level + 1) (index / 2) h (omega arith) (omega arith) gh
            set readable) in
      (b', (rw (eh, ◌>>=◌) (rw (set, ◌>>=◌) rest)), readable')

-- In a tree of a depth of 32 at most whose nodes can be read through a batch that keeps what is written
-- to it, with a hash that does not fail on the values of the tree, `InsertLeaf` of such a value
-- returns no error, and the nodes of the tree can be read through the batch that it leaves.
pub insert_leaf-IsReadable :
    (poseidon : ℕ → ℕ → Option ℕ) (t : SparseMerkleTree) {B : Type 0}
    (batch : TreeLeafGetterSetter B)
    → IsBatch batch
    → t.depth ≤ 32
    → (good : ℕ → Type 0) → IsHash (calculate_hash poseidon) good
    → (b : B) (index value : ℕ) → index < 2 ^ 32
    → good value
    → IsReadable good (get_leaf_from_batch_or_storage poseidon t batch b) t.depth
    → (b' : B) × (insert_leaf poseidon t batch b index value ≡ ok b')
      × IsReadable good (get_leaf_from_batch_or_storage poseidon t batch b') t.depth
unfolding insert_leaf
insert_leaf-IsReadable poseidon t batch laws shallow good hashes b index value small fine readable =
    let (b1, set) = laws.writes b 0 index value in
    let (b', rest, readable') =
      insert_levels-IsReadableThrough poseidon t batch laws shallow good hashes t.depth 0 index b1
        (omega arith) small
        (set_leaf-IsReadableThrough poseidon t batch laws shallow good hashes b b1 0 index value
          (omega arith) small fine set readable) in
    (b', (rw (set, ◌>>=◌) rest), readable')
