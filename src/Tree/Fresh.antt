-- ===== src/Tree/Fresh.antt =====
-- The trees of internal/zkregistry/sparse_tree.go over an empty storage: the empty branches.
use merkle_proof_service.Prelude.{
  ℕ, zero, suc, ◌+◌, ◌*◌, ◌%◌, ◌≤◌, ◌<◌, ◌≡◌, refl, ◌∙◌, false, Option, List, [], ◌∷◌, arith,
  le→ltb_false, ◌==◌,
}
use merkle_proof_service.Tree.Result.{ok, err, not_found, ◌>>=◌}
use merkle_proof_service.Tree.Sparse.{
  SparseMerkleTree, calculate_hash, branch_hashes, elem_at, calculate_empty_branch_hashes,
  get_empty_branch_value, or_empty, get_leaf_from_storage,
}
use merkle_proof_service.Tree.Merkle.{IsMerkle, IsHash, IsReadable}

module _ (poseidon : ℕ → ℕ → Option ℕ) (good : ℕ → Type 0)
    (hashes : IsHash (calculate_hash poseidon) good) where
  -- Entry l + 1 of a list is the hash of entry l with itself.
  record Doubles (levels : List ℕ) (l : ℕ) : Type 0 where
    lower : ℕ
    upper : ℕ
    at_lower : elem_at levels l ≡ ok lower
    at_upper : elem_at levels (suc l) ≡ ok upper
    hashed : calculate_hash poseidon lower lower ≡ ok upper
    good_lower : good lower
    good_upper : good upper

  branch_hashes-Doubles :
      (k prev : ℕ)
      → good prev
      → (hs : List ℕ) × (branch_hashes poseidon k prev ≡ ok hs)
        × ((l : ℕ) → l < k → Doubles (prev ∷ hs) l)
  unfolding branch_hashes
  branch_hashes-Doubles zero prev g = ([], refl, λ l p. absurd (omega arith))
  branch_hashes-Doubles (suc k) prev g =
      let (h, e, gh) = hashes prev prev g g in
      let (hs, rest, later) = branch_hashes-Doubles k h gh in
      (h ∷ hs, rw (e, ◌>>=◌) (rw (rest, ◌>>=◌) refl), λ l p. doubles l h hs p e gh later)
    where
      doubles :
          (l h : ℕ) (hs : List ℕ)
          → l < suc k
          → calculate_hash poseidon prev prev ≡ ok h
          → good h
          → ((m : ℕ) → m < k → Doubles (h ∷ hs) m)
          → Doubles (prev ∷ h ∷ hs) l
      doubles zero h hs p e gh later = record {
        lower = prev;
        upper = h;
        at_lower = refl;
        at_upper = refl;
        hashed = e;
        good_lower = g;
        good_upper = gh;
      }
      doubles (suc m) h hs p e gh later =
          let d = later m (omega arith) in
          record {
            lower = d.lower;
            upper = d.upper;
            at_lower = d.at_lower;
            at_upper = d.at_upper;
            hashed = d.hashed;
            good_lower = d.good_lower;
            good_upper = d.good_upper;
          }

  module _ (t : SparseMerkleTree) (some_level : 1 ≤ t.depth) (shallow : t.depth ≤ 32)
      (fresh : (level i : ℕ) → t.storage_leaf_getter level i ≡ err not_found)
      (leaf : good t.empty_leaf) where
    empty_levels :
        (hs : List ℕ) × (calculate_empty_branch_hashes poseidon t ≡ ok (t.empty_leaf ∷ hs))
        × ((l : ℕ) → l < t.depth → Doubles (t.empty_leaf ∷ hs) l)
    unfolding calculate_empty_branch_hashes
    empty_levels =
        let (hs, e, later) = branch_hashes-Doubles t.depth t.empty_leaf leaf in
        (
          hs,
          rw (le→ltb_false t.depth 1 some_level, no_wrap t.depth shallow) (rw (e, ◌>>=◌) refl),
          later,
        )
      where
        no_wrap : (d : ℕ) → d ≤ 32 → ((d + 1) % 256 == 0) ≡ false
        no_wrap d h = ground (arith, h)

    node_at :
        (levels : List ℕ) (level i : ℕ)
        → calculate_empty_branch_hashes poseidon t ≡ ok levels
        → level ≤ t.depth
        → get_leaf_from_storage poseidon t level i ≡ elem_at levels level
    unfolding get_leaf_from_storage get_empty_branch_value or_empty
    node_at levels level i e p =
        rw (le→ltb_false t.depth level p, fresh level i)
          (rw (le→ltb_false t.depth level p, e, ◌>>=◌) refl)

    empty_node :
        (level i : ℕ)
        → level ≤ t.depth
        → (v : ℕ) × (get_leaf_from_storage poseidon t level i ≡ ok v) × good v
    empty_node zero i p =
        let (hs, e, d) = empty_levels in
        let b = d 0 some_level in
        (b.lower, node_at (t.empty_leaf ∷ hs) 0 i e p ∙ b.at_lower, b.good_lower)
    empty_node (suc l) i p =
        let (hs, e, d) = empty_levels in
        let b = d l (omega arith) in
        (b.upper, node_at (t.empty_leaf ∷ hs) (suc l) i e p ∙ b.at_upper, b.good_upper)

    pub fresh_leaf : (i : ℕ) → get_leaf_from_storage poseidon t 0 i ≡ ok t.empty_leaf
    fresh_leaf i = let (hs, e, d) = empty_levels in node_at (t.empty_leaf ∷ hs) 0 i e (omega arith)

-- Over an empty storage, with a hash that does not fail on the values of the tree, a tree of a depth
-- from 1 to 32 is a Merkle tree, and each of its nodes can be read.
pub fresh_tree-IsMerkle :
    (poseidon : ℕ → ℕ → Option ℕ) (good : ℕ → Type 0)
    → IsHash (calculate_hash poseidon) good
    → (t : SparseMerkleTree) → 1 ≤ t.depth
    → t.depth ≤ 32
    → ((level i : ℕ) → t.storage_leaf_getter level i ≡ err not_found)
    → good t.empty_leaf
    → IsMerkle (calculate_hash poseidon) (get_leaf_from_storage poseidon t) t.depth
      × IsReadable good (get_leaf_from_storage poseidon t) t.depth
fresh_tree-IsMerkle poseidon good hashes t some_level shallow fresh leaf = (
  λ l i p q.
      let (hs, e, d) = empty_levels poseidon good hashes t some_level shallow fresh leaf in
      let b = d l p in
      let levels : List ℕ = t.empty_leaf ∷ hs in
      let at = node_at poseidon good hashes t some_level shallow fresh leaf levels in
      rw
        (
          at l (2 * i) e (omega arith) ∙ b.at_lower,
          at l (2 * i + 1) e (omega arith) ∙ b.at_lower,
          at (suc l) i e (omega arith) ∙ b.at_upper,
          ◌>>=◌,
        )
        b.hashed,
  λ l i p q. empty_node poseidon good hashes t some_level shallow fresh leaf l i p,
)
