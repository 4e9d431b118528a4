-- ===== src/Tree/Merkle.antt =====
-- What a Merkle tree is, and what a Merkle proof shows: the specification that the tree's operations
-- are held to.
use merkle_proof_service.Prelude.{
  ℕ, suc, ◌+◌, ◌*◌, ◌/◌, ◌%◌, ◌^◌, ◌<◌, ◌≤◌, ◌≡◌, List, [], ◌∷◌, ◌==◌, if◌then◌else◌,
}
use merkle_proof_service.Tree.Result.{Result, ok, ◌>>=◌}

module _ (hash : ℕ → ℕ → Result ℕ) where
  -- The hash of the children of the node above `index` at `level`.
  abbrev pub join : (ℕ → ℕ → Result ℕ) → ℕ → ℕ → Result ℕ
  join node level i = node level (2 * i) >>= λ a. node level (2 * i + 1) >>= λ b. hash a b

  -- Every node above the leaves is the hash of its children, in a tree of `depth` levels.
  abbrev pub IsMerkle : (ℕ → ℕ → Result ℕ) → ℕ → Type 0
  IsMerkle node depth =
      (level i : ℕ) → level < depth → i < 2 ^ 31 → join node level i ≡ node (suc level) i

  -- The root that a verifier computes from a leaf, its siblings and its index.
  unfoldable pub root_of : ℕ → List ℕ → ℕ → Result ℕ
  root_of leaf [] index = ok leaf
  root_of leaf (sibling ∷ path) index =
      (if index % 2 == 0 then hash leaf sibling else hash sibling leaf) >>= λ parent.
      root_of parent path (index / 2)

  -- The values that a caller may give hash to values that may be hashed again.
  abbrev pub IsHash : (ℕ → Type 0) → Type 0
  IsHash good = (a b : ℕ) → good a → good b → (h : ℕ) × (hash a b ≡ ok h) × good h

-- Every node of the tree can be read, and its value may be hashed.
abbrev pub IsReadable : (ℕ → Type 0) → (ℕ → ℕ → Result ℕ) → ℕ → Type 0
IsReadable good node depth =
    (level i : ℕ) → level ≤ depth → i < 2 ^ 32 → (v : ℕ) × (node level i ≡ ok v) × good v
