-- ===== src/Tree/TotalLeaves.antt =====
-- The outcome of `InsertLeaves` of internal/zkregistry/sparse_tree.go, errors or none.
use merkle_proof_service.Prelude.{
  ℕ, zero, suc, ◌+◌, ◌/◌, ◌≤◌, ◌<◌, ◌≡◌, refl, ◌∙◌, Bool, true, false, Option, List, [], ◌∷◌, ◌++◌,
  inl, inr, arith, Bool-cases, All, length,
}
use merkle_proof_service.Tree.Result.{ok, ◌>>=◌}
use merkle_proof_service.Tree.Sparse.{
  SparseMerkleTree, TreeLeafGetterSetter, calculate_hash, get_leaf_from_batch_or_storage,
}
use merkle_proof_service.Tree.Merkle.{IsHash, IsReadable}
use merkle_proof_service.Tree.Batch.{IsBatch}
use merkle_proof_service.Tree.Total.{IsReadableThrough, set_leaf-IsReadableThrough, node_hash}
use merkle_proof_service.Tree.Leaves.{
  TreeLeaf, member, set_leaves, level_loop, levels_loop, insert_leaves, pure_loop,
}
use merkle_proof_service.Tree.InPlace.{level_loop-pure_loop, pure_loop-skip, pure_loop-write}
use merkle_proof_service.Tree.Together.{AreIndexed, append-AreIndexed}

module _ (poseidon : ℕ → ℕ → Option ℕ) (t : SparseMerkleTree) {B : Type 0}
    (batch : TreeLeafGetterSetter B) (laws : IsBatch batch) (shallow : t.depth ≤ 32)
    (good : ℕ → Type 0) (hashes : IsHash (calculate_hash poseidon) good) where
  abbrev Reads : B → Type 0
  Reads = IsReadableThrough poseidon t batch laws shallow good hashes

  pure_loop-IsReadable :
      (level : ℕ) (rest next : List TreeLeaf) (updated : List ℕ) (b : B)
      → level < t.depth
      → AreIndexed rest
      → AreIndexed next
      → Reads b
      → (r : B × List TreeLeaf) × (pure_loop poseidon t batch level rest next updated b ≡ ok r)
        × Reads r.0
        × AreIndexed r.1
  unfolding pure_loop
  pure_loop-IsReadable level [] next updated b under r n readable = ((b, next), refl, readable, n)
  pure_loop-IsReadable level (leaf ∷ rest) next updated b under (small, r) n readable =
      elim (Bool-cases (member (leaf.index / 2) updated)) [
        | inl done ↦
            let (s, e, read, n') =
              pure_loop-IsReadable level rest next updated b under r n readable in
            (s, pure_loop-skip poseidon t batch level leaf rest next updated b done ∙ e, read, n')
        | inr fresh ↦
            let (h, eh, gh) =
              node_hash poseidon t batch laws shallow good hashes b level leaf.index under small
                readable in
            let (b1, set) = laws.writes b (level + 1) (leaf.index / 2) h in
            let new : TreeLeaf = record { index = leaf.index / 2; value = h } in
            let (s, e, read, n') =
              pure_loop-IsReadable level rest (next ++ (new ∷ [])) (leaf.index / 2 ∷ updated) b1
                under r (append-AreIndexed next new n (omega arith))
                (set_leaf-IsReadableThrough poseidon t batch laws shallow good hashes b b1
                  (level + 1) (leaf.index / 2) h (omega arith) (omega arith) gh set readable) in
            (
              s,
              pure_loop-write poseidon t batch level leaf rest next updated b fresh
                  ∙ (rw (eh, ◌>>=◌) (rw (set, ◌>>=◌) e)),
              read,
              n',
            )
      ]

  levels_loop-IsReadable :
      (shared : Bool) (k level : ℕ) (leaves : List TreeLeaf) (b : B)
      → level + k ≡ t.depth
      → AreIndexed leaves
      → Reads b
      → (b' : B) × (levels_loop poseidon t batch shared k level leaves b ≡ ok b') × Reads b'
  unfolding levels_loop
  levels_loop-IsReadable shared zero level leaves b d r readable = (b, refl, readable)
  levels_loop-IsReadable shared (suc k) level leaves b d r readable =
      let ((b1, next), e, readable1, n) =
        pure_loop-IsReadable level leaves [] [] b (omega arith) r tt readable in
      let (b', e1, readable') =
        levels_loop-IsReadable true k (level + 1) next b1 (omega arith) n readable1 in
      let round : level_loop poseidon t batch shared level (length leaves) 0 leaves [] [] b
          ≡ ok (b1, next) =
        level_loop-pure_loop poseidon t batch shared level (length leaves) 0 leaves [] [] b
          (omega arith) (omega arith)
        ∙ e in
      (b', rw (round, ◌>>=◌) e1, readable')

  set_leaves-IsReadable :
      (leaves : List TreeLeaf) (b : B)
      → AreIndexed leaves
      → All (λ leaf. good leaf.value) leaves
      → Reads b
      → (b' : B) × (set_leaves poseidon t batch leaves b ≡ ok b') × Reads b'
  unfolding set_leaves
  set_leaves-IsReadable [] b r g readable = (b, refl, readable)
  set_leaves-IsReadable (leaf ∷ rest) b (small, r) (fine, g) readable =
      let (b1, set) = laws.writes b 0 leaf.index leaf.value in
      let (b', e, readable') = set_leaves-IsReadable rest b1 r g (
        set_leaf-IsReadableThrough poseidon t batch laws shallow good hashes b b1 0 leaf.index
          leaf.value (omega arith) small fine set readable) in
      (b', rw (set, ◌>>=◌) e, readable')

-- In a tree of a depth of 32 at most whose nodes can be read through a batch that keeps what is set in
-- it, with a hash that does not fail on the values of the tree, `InsertLeaves` of such values at
-- indices that are uint32s returns no error, and the nodes of the tree can be read through the batch
-- that it leaves.
pub insert_leaves-IsReadable :
    (poseidon : ℕ → ℕ → Option ℕ) (t : SparseMerkleTree) {B : Type 0}
    (batch : TreeLeafGetterSetter B)
    → IsBatch batch
    → t.depth ≤ 32
    → (good : ℕ → Type 0) → IsHash (calculate_hash poseidon) good
    → (b : B) (leaves : List TreeLeaf) → AreIndexed leaves
    → All (λ leaf. good leaf.value) leaves
    → IsReadable good (get_leaf_from_batch_or_storage poseidon t batch b) t.depth
    → (b' : B) × (insert_leaves poseidon t batch leaves b ≡ ok b')
      × IsReadable good (get_leaf_from_batch_or_storage poseidon t batch b') t.depth
unfolding insert_leaves
insert_leaves-IsReadable poseidon t batch laws shallow good hashes b leaves r g readable =
    let (b1, set, readable1) =
      set_leaves-IsReadable poseidon t batch laws shallow good hashes leaves b r g readable in
    let (b', e, readable') =
      levels_loop-IsReadable poseidon t batch laws shallow good hashes false t.depth 0 leaves b1
        (omega arith) r readable1 in
    (b', rw (set, ◌>>=◌) e, readable')
