-- ===== src/Tree/InsertLeaves.antt =====
-- `InsertLeaves` of internal/zkregistry/sparse_tree.go as a whole: the first loop, and the levels.
use merkle_proof_service.Prelude.{
  ℕ, zero, suc, ◌+◌, ◌*◌, ◌/◌, ◌^◌, ◌≤◌, ◌<◌, ◌≡◌, refl, sym, subst, ap, ◌∙◌, Bool, true, false,
  ◌||◌, Option, List, [], ◌∷◌, inl, inr, arith, ◌==◌, ==_refl, Bool-cases, length,
}
use merkle_proof_service.Tree.Result.{ok, ok_injective, >>=-eq-ok}
use merkle_proof_service.Tree.Sparse.{
  SparseMerkleTree, TreeLeafGetterSetter, calculate_hash, get_leaf_from_batch_or_storage,
}
use merkle_proof_service.Tree.Merkle.{join, IsMerkle}
use merkle_proof_service.Tree.Batch.{IsBatch, view_set}
use merkle_proof_service.Tree.Insert.{untouched}
use merkle_proof_service.Tree.InPlace.{level_loop-pure_loop}
use merkle_proof_service.Tree.Leaves.{
  TreeLeaf, member, set_leaves, level_loop, levels_loop, insert_leaves,
}
use merkle_proof_service.Tree.Together.{
  below, AreIndexed, assigned, contradictory, seen, Between, SameLeaves, pure_loop-IsMerkle,
}

module _ (poseidon : ℕ → ℕ → Option ℕ) (t : SparseMerkleTree) {B : Type 0}
    (batch : TreeLeafGetterSetter B) (laws : IsBatch batch) (shallow : t.depth ≤ 32) where
  levels_loop-IsMerkle :
      (shared : Bool) (k level : ℕ) (leaves : List TreeLeaf) (b b' : B)
      → level + k ≡ t.depth
      → AreIndexed leaves
      → Between poseidon t batch laws shallow b level leaves [] []
      → levels_loop poseidon t batch shared k level leaves b ≡ ok b'
      → IsMerkle (calculate_hash poseidon) (seen poseidon t batch laws shallow b') t.depth
        × SameLeaves poseidon t batch laws shallow b b'
  unfolding levels_loop
  levels_loop-IsMerkle shared zero level leaves b b' d r inv e =
      subst
        (λ c.
          IsMerkle (calculate_hash poseidon) (seen poseidon t batch laws shallow c) t.depth
          × SameLeaves poseidon t batch laws shallow b c)
        (ok_injective e)
        (
          λ l i p q. inv l i p q (λ f _. absurd (omega arith)) (λ f. absurd (omega arith)),
          λ i p. refl,
        )
  levels_loop-IsMerkle shared (suc k) level leaves b b' d r inv e =
      let ((b1, next), round, e1) =
        >>=-eq-ok (level_loop poseidon t batch shared level (length leaves) 0 leaves [] [] b) _ b'
          e in
      let (inv1, n, same) =
        pure_loop-IsMerkle poseidon t batch laws shallow level leaves [] [] b b1 next (omega arith)
          r tt inv
          (sym (
              level_loop-pure_loop poseidon t batch shared level (length leaves) 0 leaves [] [] b
                (omega arith) (omega arith))
            ∙ round) in
      let (merkle, same1) =
        levels_loop-IsMerkle true k (level + 1) next b1 b' (omega arith) n
          (subst (λ l. Between poseidon t batch laws shallow b1 l next [] [])
            (let a : suc level ≡ level + 1 = omega arith in a) inv1)
          e1 in
      (merkle, λ i p. same1 i p ∙ same i p)

  -- A Merkle tree but for the nodes above some leaves.
  abbrev AllBut : List TreeLeaf → B → Type 0
  AllBut all b =
      (l i : ℕ)
      → l < t.depth
      → i < 2 ^ 31
      → (l ≡ 0 → below i all ≡ false)
      → join (calculate_hash poseidon) (seen poseidon t batch laws shallow b) l i
        ≡ seen poseidon t batch laws shallow b (suc l) i

  set_leaves-AllBut :
      (all leaves : List TreeLeaf) (b b' : B)
      → AreIndexed leaves
      → ((i : ℕ) → below i leaves ≡ true → below i all ≡ true)
      → AllBut all b
      → set_leaves poseidon t batch leaves b ≡ ok b'
      → AllBut all b'
  unfolding set_leaves below
  set_leaves-AllBut all [] b b' r sub inv e = subst (AllBut all) (ok_injective e) inv
  set_leaves-AllBut all (leaf ∷ rest) b b' (small, r) sub inv e =
      let (b1, set, e1) = >>=-eq-ok (batch.set_leaf b 0 leaf.index leaf.value) _ b' e in
      set_leaves-AllBut all rest b1 b' r
        (λ i m. sub i (or_true (leaf.index / 2 == i) (below i rest) m))
        (λ l i p q a.
          let other : 0 ≡ l → leaf.index / 2 ≡ i → ⊥ =
            λ f g. contradictory (below i all) (sub i (rw (g, ==_refl i) refl)) (a (sym f)) in
          rw
            (
              untouched poseidon t batch laws shallow b b1 leaf.index leaf.value l (2 * i) small
                  (omega arith) (omega arith) set (λ f g. other f (omega arith)),
              untouched poseidon t batch laws shallow b b1 leaf.index leaf.value l (2 * i + 1) small
                  (omega arith) (omega arith) set (λ f g. other f (omega arith)),
              untouched poseidon t batch laws shallow b b1 leaf.index leaf.value (suc l) i small
                  (omega arith) (omega arith) set (λ f _. absurd (omega arith)),
            )
            (inv l i p q a))
        e1
    where
      or_true : (x y : Bool) → y ≡ true → (x || y) ≡ true
      or_true true y h = refl
      or_true false y h = h

  set_leaves-assigned :
      (leaves : List TreeLeaf) (b b' : B)
      → AreIndexed leaves
      → set_leaves poseidon t batch leaves b ≡ ok b'
      → (i : ℕ) → i < 2 ^ 32
      → seen poseidon t batch laws shallow b' 0 i
        ≡ assigned leaves i (seen poseidon t batch laws shallow b 0 i)
  unfolding set_leaves assigned
  set_leaves-assigned [] b b' r e i p =
      ap (λ c. seen poseidon t batch laws shallow c 0 i) (sym (ok_injective e))
  set_leaves-assigned (leaf ∷ rest) b b' (small, r) e i p =
      let (b1, set, e1) = >>=-eq-ok (batch.set_leaf b 0 leaf.index leaf.value) _ b' e in
      set_leaves-assigned rest b1 b' r e1 i p
      ∙ ap (assigned rest i) (
          view_set poseidon t batch laws b b1 0 leaf.index leaf.value 0 i (omega arith) small
            (omega arith) p set)

-- In a tree of a depth of 32 at most that is a Merkle tree as seen through a batch that keeps what is
-- set in it, `InsertLeaves` of leaves whose indices are uint32s, in any order and with repetitions,
-- when it returns without an error, leaves a Merkle tree in which each leaf has the last value that
-- the list gives it, or else the value it had.
pub insert_leaves-IsMerkle :
    (poseidon : ℕ → ℕ → Option ℕ) (t : SparseMerkleTree) {B : Type 0}
    (batch : TreeLeafGetterSetter B)
    → IsBatch batch
    → t.depth ≤ 32
    → (b b' : B) (leaves : List TreeLeaf) → AreIndexed leaves
    → IsMerkle (calculate_hash poseidon) (get_leaf_from_batch_or_storage poseidon t batch b) t.depth
    → insert_leaves poseidon t batch leaves b ≡ ok b'
    → IsMerkle
        (calculate_hash poseidon)
        (get_leaf_from_batch_or_storage poseidon t batch b')
        t.depth
      × ((i : ℕ)
          → i < 2 ^ 32
          → get_leaf_from_batch_or_storage poseidon t batch b' 0 i
            ≡ assigned leaves i (get_leaf_from_batch_or_storage poseidon t batch b 0 i))
unfolding insert_leaves member
insert_leaves-IsMerkle poseidon t batch laws shallow b b' leaves r merkle e =
    let (b1, set, e1) = >>=-eq-ok (set_leaves poseidon t batch leaves b) _ b' e in
    let start =
      set_leaves-AllBut poseidon t batch laws shallow leaves leaves b b1 r (λ i m. m)
        (λ l i p q a. merkle l i p q) set in
    let (merkle', same) =
      levels_loop-IsMerkle poseidon t batch laws shallow false t.depth 0 leaves b1 b' (omega arith)
        r
        (λ l i p q a c. start l i p q (λ f. elim (Bool-cases (below i leaves)) [
          | inl there ↦ absurd (contradictory false (a f there) refl)
          | inr away ↦ away
        ]))
        e1 in
    (
      merkle',
      λ i p. same i p ∙ set_leaves-assigned poseidon t batch laws shallow leaves b b1 r set i p,
    )
