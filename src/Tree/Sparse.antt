-- ===== src/Tree/Sparse.antt =====
-- SparseMerkleTree of internal/zkregistry/sparse_tree.go. Values are uint256s, levels uint8s and
-- indices uint32s. The Poseidon hash is third-party code and a parameter; `none` is its error.
use merkle_proof_service.Prelude.{
  ℕ, zero, suc, ◌+◌, ◌-◌, ◌/◌, ◌%◌, ◌^◌, Bool, Option, none, some, List, [], ◌∷◌, ltb, ◌==◌,
  if◌then◌else◌,
}
use merkle_proof_service.Tree.Result.{
  not_found, invalid_level, invalid_depth, invalid_hash, cancelled, panic, Result, ok, err, ◌>>=◌,
}

-- interface TreeLeafGetter, on the storage as it stands
abbrev pub TreeLeafGetter : Type 0
TreeLeafGetter = ℕ → ℕ → Result ℕ

-- interface TreeLeafGetterSetter
pub record TreeLeafGetterSetter (B : Type 0) : Type 0 where
  pub get_leaf : B → ℕ → ℕ → Result ℕ
  pub set_leaf : B → ℕ → ℕ → ℕ → Result B

-- The field emptyBranchLevels caches what `calculate_empty_branch_hashes` returns; it depends on
-- the other fields alone, and is calculated anew at each use.
pub record SparseMerkleTree : Type 0 where
  pub empty_leaf : ℕ
  pub depth : ℕ
  pub storage_leaf_getter : TreeLeafGetter

pub record MerkleProof : Type 0 where
  pub leaf : ℕ
  pub path : List ℕ
  pub index : ℕ
  pub root : ℕ

abbrev get_elem? : List ℕ → ℕ → Option ℕ
get_elem? [] i = none
get_elem? (x ∷ xs) zero = some x
get_elem? (x ∷ xs) (suc i) = get_elem? xs i

-- An index out of range panics.
abbrev pub elem_at : List ℕ → ℕ → Result ℕ
elem_at xs i = elim (get_elem? xs i) [ none ↦ err panic | some x ↦ ok x ]

module _ (poseidon : ℕ → ℕ → Option ℕ) where
  unfoldable pub calculate_hash : ℕ → ℕ → Result ℕ
  calculate_hash left right = elim (poseidon left right) [
    | none ↦ err invalid_hash
    | some h ↦ if ltb h (2 ^ 256) then ok h else err invalid_hash
  ]

  -- The rounds of the loop that fills `levels` from `levels[i - 1]`.
  unfoldable pub branch_hashes : ℕ → ℕ → Result (List ℕ)
  branch_hashes zero prev = ok []
  branch_hashes (suc k) prev = do h ← calculate_hash prev prev; hs ← branch_hashes k h; ok (h ∷ hs)

  module _ (t : SparseMerkleTree) where
    -- `make` takes depth + 1 as a uint8, so at depth 255 `levels[0]` is out of range.
    unfoldable pub calculate_empty_branch_hashes : Result (List ℕ)
    calculate_empty_branch_hashes =
        if ltb t.depth 1
        then err invalid_depth
        else if (t.depth + 1) % 256 == 0
        then err panic
        else (branch_hashes t.depth t.empty_leaf >>= λ hs. ok (t.empty_leaf ∷ hs))

    unfoldable pub get_empty_branch_value : ℕ → Result ℕ
    get_empty_branch_value level =
        if ltb t.depth level
        then err invalid_level
        else (calculate_empty_branch_hashes >>= λ levels. elem_at levels level)

    -- What `getLeafFromStorage` makes of the storage's answer.
    unfoldable pub or_empty : ℕ → Result ℕ → Result ℕ
    or_empty level (ok leaf) = ok leaf
    or_empty level (err not_found) = get_empty_branch_value level
    or_empty level (err e) = err e

    unfoldable pub get_leaf_from_storage : ℕ → ℕ → Result ℕ
    get_leaf_from_storage level index =
        if ltb t.depth level
        then err invalid_level
        else or_empty level (t.storage_leaf_getter level index)

    unfoldable pub get_root : Result ℕ
    get_root = get_leaf_from_storage t.depth 0

    -- The levels from `level` on, `k` of them; `done` tells at which level the context is done.
    unfoldable pub proof_path : (ℕ → Bool) → ℕ → ℕ → ℕ → Result (List ℕ)
    proof_path done zero level index = ok []
    proof_path done (suc k) level index =
        let round : Result (List ℕ) =
          get_leaf_from_storage level (if index % 2 == 0 then (index + 1) % 2 ^ 32 else index - 1)
          >>= λ sibling.
              proof_path done k (level + 1) (index / 2) >>= λ rest. ok (sibling ∷ rest) in
        if done level then err cancelled else round

    unfoldable pub create_proof : (ℕ → Bool) → ℕ → Result MerkleProof
    create_proof done index = do
      leaf ← get_leaf_from_storage 0 index
      path ← proof_path done t.depth 0 index
      root ← get_root
      ok (record { leaf = leaf; path = path; index = index; root = root })

    module _ {B : Type 0} (batch : TreeLeafGetterSetter B) where
      -- What `getLeafFromBatchOrStorage` makes of the batch's answer.
      unfoldable pub or_storage : ℕ → ℕ → Result ℕ → Result ℕ
      or_storage level index (ok node) = ok node
      or_storage level index (err not_found) = get_leaf_from_storage level index
      or_storage level index (err e) = err e

      unfoldable pub get_leaf_from_batch_or_storage : B → ℕ → ℕ → Result ℕ
      get_leaf_from_batch_or_storage b level index =
          or_storage level index (batch.get_leaf b level index)

      unfoldable pub get_sibling_nodes : B → ℕ → ℕ → Result (ℕ × ℕ)
      get_sibling_nodes b level index = do
        left ← get_leaf_from_batch_or_storage b level (if index % 2 == 0 then index else index - 1)
        right ←
            get_leaf_from_batch_or_storage b level
              (if index % 2 == 0 then (index + 1) % 2 ^ 32 else index)
        ok (left, right)

      unfoldable pub calculate_hash_for_node : B → ℕ → ℕ → Result ℕ
      calculate_hash_for_node b level index = do
        (left, right) ← get_sibling_nodes b level index
        calculate_hash left right

      -- for level < depth: `k` levels are left.
      unfoldable pub insert_levels : ℕ → ℕ → ℕ → B → Result B
      insert_levels zero level index b = ok b
      insert_levels (suc k) level index b = do
        node_hash ← calculate_hash_for_node b level index
        b' ← batch.set_leaf b (level + 1) (index / 2) node_hash
        insert_levels k (level + 1) (index / 2) b'

      unfoldable pub insert_leaf : B → ℕ → ℕ → Result B
      insert_leaf b index value = do
        b' ← batch.set_leaf b 0 index value
        insert_levels t.depth 0 index b'
