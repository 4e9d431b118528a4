-- ===== src/Tree/Cancelled.antt =====
-- `CreateProof` of internal/zkregistry/sparse_tree.go, when the context is done.
use merkle_proof_service.Prelude.{
  ℕ, zero, suc, ◌+◌, ◌-◌, ◌/◌, ◌%◌, ◌^◌, ◌≤◌, ◌<◌, ◌≡◌, refl, true, inl, inr, arith, ◌==◌, ==→eq,
  if◌then◌else◌, Bool-cases, Bool, Option,
}
use native.Mathlib.Nat.{pow-le-pow_right}
use merkle_proof_service.Tree.Result.{err, cancelled, ◌>>=◌}
use merkle_proof_service.Tree.Sparse.{
  SparseMerkleTree, get_leaf_from_storage, proof_path, create_proof,
}
use merkle_proof_service.Tree.Merkle.{IsReadable}

module _ (poseidon : ℕ → ℕ → Option ℕ) (t : SparseMerkleTree) (good : ℕ → Type 0)
    (readable : IsReadable good (get_leaf_from_storage poseidon t) t.depth) (done : ℕ → Bool) where
  proof_path-cancelled :
      (k level index l : ℕ)
      → level + k ≡ t.depth
      → index < 2 ^ 32
      → level ≤ l
      → l < t.depth
      → done l ≡ true
      → proof_path poseidon t done k level index ≡ err cancelled
  unfolding proof_path
  proof_path-cancelled zero level index l e small le lt d = absurd (omega arith)
  proof_path-cancelled (suc k) level index l e small le lt d = elim (Bool-cases (done level)) [
    | inl now ↦ rw now refl
    | inr later ↦
        let sibling : ℕ = if index % 2 == 0 then (index + 1) % 2 ^ 32 else index - 1 in
        let small_sibling : sibling < 2 ^ 32 = ground arith in
        let (s, es, _) = readable level sibling (omega arith) small_sibling in
        let apart : level < l = elim (Bool-cases (level == l)) [
          | inl same ↦ cc (==→eq level l same, later, d)
          | inr other ↦ ground arith
        ] in
        rw (later, es, ◌>>=◌)
          (rw
            (proof_path-cancelled k (level + 1) (index / 2) l (omega arith) (omega arith)
              (omega arith) lt d)
            refl)
  ]

-- In a tree whose nodes can be read, of a depth of 32 at most, `CreateProof` of an index of the tree
-- returns no proof but the error of the context, when that is done at one of the levels below the
-- depth, whichever it is.
pub create_proof-cancelled :
    (poseidon : ℕ → ℕ → Option ℕ) (t : SparseMerkleTree) (good : ℕ → Type 0)
    → IsReadable good (get_leaf_from_storage poseidon t) t.depth
    → (done : ℕ → Bool) (level : ℕ) → level < t.depth
    → done level ≡ true
    → (index : ℕ) → index < 2 ^ t.depth
    → t.depth ≤ 32
    → create_proof poseidon t done index ≡ err cancelled
unfolding create_proof
create_proof-cancelled poseidon t good readable done level below d index inside shallow =
    let wide : 2 ^ t.depth ≤ 2 ^ 32 = pow-le-pow_right {n = 2} (omega arith) shallow in
    let small : index < 2 ^ 32 = omega arith in
    let (leaf, at_leaf, _) = readable 0 index (omega arith) small in
    rw (at_leaf, ◌>>=◌)
      (rw
        (proof_path-cancelled poseidon t good readable done t.depth 0 index level (omega arith)
          small (omega arith) below d)
        refl)
