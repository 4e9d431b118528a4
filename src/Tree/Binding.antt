-- ===== src/Tree/Binding.antt =====
-- What a proof against the root of a tree of internal/zkregistry/sparse_tree.go can show.
use merkle_proof_service.Prelude.{
  ℕ, zero, suc, ◌+◌, ◌-◌, ◌/◌, ◌%◌, ◌^◌, ◌≤◌, ◌<◌, ◌≡◌, sym, ap, ◌∙◌, false, Option, List, [], ◌∷◌,
  ◌⊎◌, inl, inr, arith, ◌==◌, ==→eq, ==_refl, if◌then◌else◌, Bool-cases, length,
}
use mathlib.Core.Path.{ap₂}
use native.Mathlib.Nat.{pow-le-pow_right}
use merkle_proof_service.Tree.Result.{Result, ok, >>=-eq-ok, ok_injective}
use merkle_proof_service.Tree.Sparse.{
  SparseMerkleTree, calculate_hash, get_leaf_from_storage, get_root,
}
use merkle_proof_service.Tree.Merkle.{IsMerkle, IsReadable, root_of}
use merkle_proof_service.Tree.Proofs.{parent_even, parent_odd, half_lt, odd_of}

-- Two pairs of values with one hash.
pub record Collision (hash : ℕ → ℕ → Result ℕ) : Type 0 where
  pub a : ℕ
  pub b : ℕ
  pub c : ℕ
  pub d : ℕ
  pub h : ℕ
  pub first : hash a b ≡ ok h
  pub second : hash c d ≡ ok h
  pub distinct : ¬ ((a ≡ c) × (b ≡ d))

module _ (hash : ℕ → ℕ → Result ℕ) where
  different : (v u : ℕ) → (v == u) ≡ false → ¬ (v ≡ u)
  different v u h e = cc (rw (e, ==_refl) at h)

  same_left : (v s u r h : ℕ) → hash v s ≡ ok h → hash u r ≡ ok h → (v ≡ u) ⊎ Collision hash
  same_left v s u r h p q = elim (Bool-cases (v == u)) [
    | inl e ↦ inl (==→eq v u e)
    | inr e ↦ inr (record {
      a = v;
      b = s;
      c = u;
      d = r;
      h = h;
      first = p;
      second = q;
      distinct = λ both. different v u e both.0;
    })
  ]

  same_right : (s v r u h : ℕ) → hash s v ≡ ok h → hash r u ≡ ok h → (v ≡ u) ⊎ Collision hash
  same_right s v r u h p q = elim (Bool-cases (v == u)) [
    | inl e ↦ inl (==→eq v u e)
    | inr e ↦ inr (record {
      a = s;
      b = v;
      c = r;
      d = u;
      h = h;
      first = p;
      second = q;
      distinct = λ both. different v u e both.1;
    })
  ]

  module _ (node : ℕ → ℕ → Result ℕ) (depth : ℕ) (merkle : IsMerkle hash node depth)
      (good : ℕ → Type 0) (readable : IsReadable good node depth) (root : ℕ)
      (at_root : node depth 0 ≡ ok root) where
    -- A path from a value to the root starts at the node, or meets a collision.
    climb_binding :
        (k level index v u : ℕ) (path : List ℕ)
        → level + k ≡ depth
        → index < 2 ^ 32
        → index < 2 ^ k
        → length path ≡ k
        → root_of hash v path index ≡ ok root
        → node level index ≡ ok u
        → (v ≡ u) ⊎ Collision hash
    unfolding root_of
    climb_binding zero level index v u (s ∷ path) e small inside long h n = absurd (omega arith)
    climb_binding zero level index v u [] e small inside long h n =
        inl (ok_injective (h ∙ sym at_root ∙ ap₂ node (omega arith) (omega arith) ∙ n))
    climb_binding (suc k) level index v u [] e small inside long h n = absurd (omega arith)
    climb_binding (suc k) level index v u (s ∷ path) e small inside long h n =
        let (p, ep, _) = readable (suc level) (index / 2) (omega arith) (omega arith) in
        let (p', hashed, rest) =
          >>=-eq-ok (if index % 2 == 0 then hash v s else hash s v)
            (λ parent. root_of hash parent path (index / 2)) root h in
        elim (climb_binding k (suc level) (index / 2) p' p path (omega arith) (omega arith)
          (half_lt k index inside) (omega arith) rest ep) [
            | inr collision ↦ inr collision
            | inl same ↦ elim (Bool-cases (index % 2 == 0)) [
              | inl even ↦
                  let (r, er, _) =
                    readable level (index + 1) (omega arith)
                      (omega (arith, ==→eq (index % 2) 0 even)) in
                  same_left v s u r p ((rw even at hashed) ∙ ap ok same) (
                    parent_even hash node depth merkle level index u r (omega arith) small
                      (==→eq (index % 2) 0 even) n er
                    ∙ ep)
              | inr odd ↦
                  let (r, er, _) = readable level (index - 1) (omega arith) (omega arith) in
                  same_right s v r u p ((rw odd at hashed) ∙ ap ok same) (
                    parent_odd hash node depth merkle level index r u (omega arith) small
                      (odd_of (index % 2) odd (omega arith)) er n
                    ∙ ep)
            ]
          ]

-- In a Merkle tree whose nodes can be read, of a depth of 32 at most: when a verifier gets the root that
-- `GetRoot` returns from a value, as many siblings as the tree has levels and an index of the tree,
-- the value is the leaf that the tree has there, or two different pairs of values have one hash.
pub root_of_binding :
    (poseidon : ℕ → ℕ → Option ℕ) (t : SparseMerkleTree)
    → IsMerkle (calculate_hash poseidon) (get_leaf_from_storage poseidon t) t.depth
    → (good : ℕ → Type 0) → IsReadable good (get_leaf_from_storage poseidon t) t.depth
    → (index value leaf root : ℕ) (path : List ℕ) → index < 2 ^ t.depth
    → t.depth ≤ 32
    → length path ≡ t.depth
    → get_root poseidon t ≡ ok root
    → root_of (calculate_hash poseidon) value path index ≡ ok root
    → get_leaf_from_storage poseidon t 0 index ≡ ok leaf
    → (value ≡ leaf) ⊎ Collision (calculate_hash poseidon)
unfolding get_root
root_of_binding poseidon t merkle good readable index value leaf root path inside shallow long
      at_root accepted at_leaf =
    let wide : 2 ^ t.depth ≤ 2 ^ 32 = pow-le-pow_right {n = 2} (omega arith) shallow in
    climb_binding (calculate_hash poseidon) (get_leaf_from_storage poseidon t) t.depth merkle good
      readable root at_root t.depth 0 index value leaf path (omega arith) (omega arith) inside long
      accepted at_leaf
