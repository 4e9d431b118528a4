-- ===== src/Tree/Leaves.antt =====
-- `InsertLeaves` of internal/zkregistry/sparse_tree.go. From the second level on `nextLevelLeaves`
-- is filled in the array that `leaves` is read from; the loop over `leaves` keeps both.
use merkle_proof_service.Prelude.{
  ℕ, zero, suc, ◌+◌, ◌/◌, Bool, true, false, ◌||◌, Option, none, some, List, [], ◌∷◌, ◌++◌, ◌==◌,
  if◌then◌else◌, length,
}
use merkle_proof_service.Tree.Result.{Result, ok, err, panic, ◌>>=◌}
use merkle_proof_service.Tree.Sparse.{
  SparseMerkleTree, TreeLeafGetterSetter, calculate_hash_for_node,
}

pub record TreeLeaf : Type 0 where
  pub index : ℕ
  pub value : ℕ

-- `_, ok := updatedIndexes[index]`, of the indices put so far
unfoldable pub member : ℕ → List ℕ → Bool
member i [] = false
member i (j ∷ js) = (j == i) || member i js

abbrev pub leaf_at : List TreeLeaf → ℕ → Option TreeLeaf
leaf_at [] p = none
leaf_at (leaf ∷ rest) zero = some leaf
leaf_at (leaf ∷ rest) (suc p) = leaf_at rest p

-- The array after `append` puts a leaf at a position of it.
abbrev pub overwrite : List TreeLeaf → ℕ → TreeLeaf → List TreeLeaf
overwrite [] q new = []
overwrite (leaf ∷ rest) zero new = new ∷ rest
overwrite (leaf ∷ rest) (suc q) new = leaf ∷ overwrite rest q new

abbrev pub drop : ℕ → List TreeLeaf → List TreeLeaf
drop zero xs = xs
drop (suc p) [] = []
drop (suc p) (x ∷ xs) = drop p xs

module _ (poseidon : ℕ → ℕ → Option ℕ) (t : SparseMerkleTree) {B : Type 0}
    (batch : TreeLeafGetterSetter B) where
  -- The first loop.
  unfoldable pub set_leaves : List TreeLeaf → B → Result B
  set_leaves [] b = ok b
  set_leaves (leaf ∷ rest) b = batch.set_leaf b 0 leaf.index leaf.value >>= λ b'. set_leaves rest b'

  -- The rounds of the loop over `leaves` from position `p` on, `k` of them; `shared` when
  -- `nextLevelLeaves` is in the same array.
  unfoldable pub level_loop :
      Bool → ℕ → ℕ → ℕ → List TreeLeaf → List TreeLeaf → List ℕ → B → Result (B × List TreeLeaf)
  level_loop shared level zero p leaves next updated b = ok (b, next)
  level_loop shared level (suc k) p leaves next updated b = elim (leaf_at leaves p) [
    | none ↦ err panic
    | some leaf ↦ elim (member (leaf.index / 2) updated) [
      | true ↦ level_loop shared level k (p + 1) leaves next updated b
      | false ↦ calculate_hash_for_node poseidon t batch b level leaf.index >>= λ node_hash.
          batch.set_leaf b (level + 1) (leaf.index / 2) node_hash >>= λ b'.
          let new : TreeLeaf = record { index = leaf.index / 2; value = node_hash } in
          level_loop shared level k (p + 1)
            (if shared then overwrite leaves (length next) new else leaves) (next ++ (new ∷ []))
            (leaf.index / 2 ∷ updated) b'
    ]
  ]

  -- for level < depth: `k` levels are left.
  unfoldable pub levels_loop : Bool → ℕ → ℕ → List TreeLeaf → B → Result B
  levels_loop shared zero level leaves b = ok b
  levels_loop shared (suc k) level leaves b =
      level_loop shared level (length leaves) 0 leaves [] [] b >>= λ r.
      levels_loop true k (level + 1) r.1 r.0

  unfoldable pub insert_leaves : List TreeLeaf → B → Result B
  insert_leaves leaves b = set_leaves leaves b >>= λ b'. levels_loop false t.depth 0 leaves b'

  -- The loop over leaves that nothing overwrites.
  unfoldable pub pure_loop :
      ℕ → List TreeLeaf → List TreeLeaf → List ℕ → B → Result (B × List TreeLeaf)
  pure_loop level [] next updated b = ok (b, next)
  pure_loop level (leaf ∷ rest) next updated b = elim (member (leaf.index / 2) updated) [
    | true ↦ pure_loop level rest next updated b
    | false ↦ calculate_hash_for_node poseidon t batch b level leaf.index >>= λ node_hash.
        batch.set_leaf b (level + 1) (leaf.index / 2) node_hash >>= λ b'.
        pure_loop level rest (next ++ (record { index = leaf.index / 2; value = node_hash } ∷ []))
          (leaf.index / 2 ∷ updated) b'
  ]
