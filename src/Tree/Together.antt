-- ===== src/Tree/Together.antt =====
-- `InsertLeaves` of internal/zkregistry/sparse_tree.go: the tree while a level is updated.
use merkle_proof_service.Prelude.{
  ℕ, suc, ◌+◌, ◌*◌, ◌/◌, ◌^◌, ◌≤◌, ◌<◌, ◌≡◌, refl, sym, subst, ◌∙◌, Bool, true, false, ◌&&◌, ◌||◌,
  Option, List, [], ◌∷◌, ◌++◌, inl, inr, arith, ◌==◌, ==→eq, ==_refl, if◌then◌else◌, Bool-cases,
  All,
}
use mathlib.Core.Path.{ap₂}
use merkle_proof_service.Tree.Result.{Result, ok, ok_injective, >>=-eq-ok}
use merkle_proof_service.Tree.Sparse.{
  SparseMerkleTree, TreeLeafGetterSetter, calculate_hash, get_leaf_from_batch_or_storage,
  calculate_hash_for_node,
}
use merkle_proof_service.Tree.Merkle.{join}
use merkle_proof_service.Tree.Batch.{IsBatch, view_set}
use merkle_proof_service.Tree.Insert.{place, both, unchanged, calculate_hash_for_node-join}
use merkle_proof_service.Tree.InPlace.{pure_loop-skip, pure_loop-write}
use merkle_proof_service.Tree.Leaves.{TreeLeaf, member, pure_loop}

-- A leaf of the list is below the node `i` of the next level.
unfoldable pub below : ℕ → List TreeLeaf → Bool
below i [] = false
below i (leaf ∷ rest) = (leaf.index / 2 == i) || below i rest

-- The leaves have indices of uint32.
abbrev pub AreIndexed : List TreeLeaf → Type 0
AreIndexed = All (λ leaf. leaf.index < 2 ^ 32)

-- The value that a list of leaves gives a leaf.
unfoldable pub assigned : List TreeLeaf → ℕ → Result ℕ → Result ℕ
assigned [] i before = before
assigned (leaf ∷ rest) i before =
    assigned rest i (if leaf.index == i then ok leaf.value else before)

or_comm_false : (a : Bool) → (a || false) ≡ (false || a)
or_comm_false true = refl
or_comm_false false = refl

below-append :
    (i : ℕ) (xs : List TreeLeaf) (x : TreeLeaf)
    → below i (xs ++ (x ∷ [])) ≡ (below i xs || (x.index / 2 == i))
unfolding below
below-append i [] x = or_comm_false (x.index / 2 == i)
below-append i (y ∷ ys) x = elim (Bool-cases (y.index / 2 == i)) [
  | inl same ↦ rw same refl
  | inr other ↦ rw other (below-append i ys x)
]

pub append-AreIndexed :
    (xs : List TreeLeaf) (x : TreeLeaf)
    → AreIndexed xs
    → x.index < 2 ^ 32
    → AreIndexed (xs ++ (x ∷ []))
append-AreIndexed [] x h k = (k, tt)
append-AreIndexed (y ∷ ys) x (h, hs) k = (h, append-AreIndexed ys x hs k)

-- A Merkle tree but for the nodes above the leaves that are left, if not updated yet, and the nodes
-- above those of the next level.
abbrev pub IsMerkleBetween :
    (ℕ → ℕ → Result ℕ)
    → (ℕ → ℕ → Result ℕ)
    → ℕ
    → ℕ
    → List TreeLeaf
    → List TreeLeaf
    → List ℕ
    → Type 0
IsMerkleBetween hash node depth level rest next updated =
    (l i : ℕ)
    → l < depth
    → i < 2 ^ 31
    → (l ≡ level → below i rest ≡ true → member i updated ≡ true)
    → (l ≡ suc level → below i next ≡ false)
    → join hash node l i ≡ node (suc l) i

or_false : (a b : Bool) → (a || b) ≡ false → (a ≡ false) × (b ≡ false)
or_false false false h = (refl, refl)
or_false false true h = cc
or_false true b h = cc

or_right : (a b : Bool) → a ≡ false → (a || b) ≡ b
or_right false b h = refl
or_right true b h = cc

eq_false : (a b : ℕ) → (a ≡ b → ⊥) → (a == b) ≡ false
eq_false a b h = ground (arith, h)

pub contradictory : (a : Bool) → a ≡ true → a ≡ false → ⊥
contradictory a h k = cc

module _ (hash : ℕ → ℕ → Result ℕ) (depth : ℕ) (node : ℕ → ℕ → Result ℕ) (level : ℕ)
    (leaf : TreeLeaf) (rest next : List TreeLeaf) (updated : List ℕ) where
  -- A leaf whose parent is updated already needs nothing.
  skip-IsMerkleBetween :
      member (leaf.index / 2) updated ≡ true
      → IsMerkleBetween hash node depth level (leaf ∷ rest) next updated
      → IsMerkleBetween hash node depth level rest next updated
  unfolding below
  skip-IsMerkleBetween done h l i p q a b =
      h l i p q
        (λ e m. elim (Bool-cases (leaf.index / 2 == i)) [
          | inl same ↦ subst (λ j. member j updated ≡ true) (==→eq (leaf.index / 2) i same) done
          | inr other ↦ a e (sym (or_right (leaf.index / 2 == i) (below i rest) other) ∙ m)
        ])
        b

  -- Writing the parent of a leaf mends it, and breaks at most the node above it.
  write-IsMerkleBetween :
      (node' : ℕ → ℕ → Result ℕ) (h : ℕ)
      → depth ≤ 32
      → level < depth
      → leaf.index / 2 < 2 ^ 31
      → ((l i : ℕ)
          → l < 256
          → i < 2 ^ 32
          → node' l i ≡ (if suc level == l && leaf.index / 2 == i then ok h else node l i))
      → join hash node level (leaf.index / 2) ≡ ok h
      → IsMerkleBetween hash node depth level (leaf ∷ rest) next updated
      → IsMerkleBetween hash node' depth level rest
          (next ++ (record { index = leaf.index / 2; value = h } ∷ []))
          (leaf.index / 2 ∷ updated)
  unfolding below member
  write-IsMerkleBetween node' h shallow under small changed hashed inv l i p q a b =
      let same_elsewhere =
        unchanged hash depth node node' level (leaf.index / 2) h shallow under small changed
          hashed in
      let away : (l ≡ suc level → leaf.index / 2 / 2 ≡ i → ⊥) = λ e f.
        contradictory (leaf.index / 2 / 2 == i) (rw f (==_refl i))
          (or_false (below i next) (leaf.index / 2 / 2 == i)
            (sym (below-append i next (record { index = leaf.index / 2; value = h })) ∙ b e)).1 in
      elim (place l level i (leaf.index / 2)) [
        | inl (e, f) ↦
            rw
              (
                same_elsewhere l (2 * i) (omega arith) (omega arith) (λ g _. absurd (omega arith)),
                same_elsewhere l (2 * i + 1) (omega arith) (omega arith)
                    (λ g _. absurd (omega arith)),
                changed (suc l) i (omega arith) (omega arith),
                both (suc level) (suc l) (leaf.index / 2) i (omega arith) (omega arith),
              )
              (ap₂ (join hash node) e f ∙ hashed)
        | inr there ↦
            rw
              (
                same_elsewhere l (2 * i) (omega arith) (omega arith)
                    (λ g k. away (omega arith) (omega arith)),
                same_elsewhere l (2 * i + 1) (omega arith) (omega arith)
                    (λ g k. away (omega arith) (omega arith)),
                same_elsewhere (suc l) i (omega arith) (omega arith)
                    (λ g k. there (omega arith) (omega arith)),
              )
              (inv l i p q
                (λ e m.
                  let apart : (leaf.index / 2 == i) ≡ false =
                    eq_false (leaf.index / 2) i (λ f. there e (sym f)) in
                  sym (or_right (leaf.index / 2 == i) (member i updated) apart)
                  ∙ a e (sym (or_right (leaf.index / 2 == i) (below i rest) apart) ∙ m))
                (λ e.
                  (or_false (below i next) (leaf.index / 2 / 2 == i) (
                    sym (below-append i next (record { index = leaf.index / 2; value = h }))
                    ∙ b e)).0))
      ]

module _ (poseidon : ℕ → ℕ → Option ℕ) (t : SparseMerkleTree) {B : Type 0}
    (batch : TreeLeafGetterSetter B) (laws : IsBatch batch) (shallow : t.depth ≤ 32) where
  abbrev pub seen : B → ℕ → ℕ → Result ℕ
  seen b = get_leaf_from_batch_or_storage poseidon t batch b

  abbrev pub Between : B → ℕ → List TreeLeaf → List TreeLeaf → List ℕ → Type 0
  Between b = IsMerkleBetween (calculate_hash poseidon) (seen b) t.depth

  abbrev pub SameLeaves : B → B → Type 0
  SameLeaves b b' = (i : ℕ) → i < 2 ^ 32 → seen b' 0 i ≡ seen b 0 i

  -- The nodes of a level that were updated are the leaves of the next one.
  turn :
      (b : B) (level : ℕ) (next : List TreeLeaf) (updated : List ℕ)
      → Between b level [] next updated
      → Between b (suc level) next [] []
  unfolding below member
  turn b level next updated h l i p q a c =
      h l i p q (λ e m. absurd (contradictory false m refl))
        (λ e. elim (Bool-cases (below i next)) [
          | inl there ↦ absurd (contradictory false (a e there) refl)
          | inr away ↦ away
        ])

  set_above :
      (b b1 : B) (level j h : ℕ)
      → level < t.depth
      → j < 2 ^ 32
      → batch.set_leaf b (level + 1) j h ≡ ok b1
      → (l i : ℕ) → l < 256
      → i < 2 ^ 32
      → seen b1 l i ≡ (if suc level == l && j == i then ok h else seen b l i)
  set_above b b1 level j h under small set l i p q =
      rw (let a : level + 1 ≡ suc level = omega arith in a) at
        (view_set poseidon t batch laws b b1 (level + 1) j h l i (omega arith) small p q set)

  pub pure_loop-IsMerkle :
      (level : ℕ) (rest next : List TreeLeaf) (updated : List ℕ) (b b' : B) (next' : List TreeLeaf)
      → level < t.depth
      → AreIndexed rest
      → AreIndexed next
      → Between b level rest next updated
      → pure_loop poseidon t batch level rest next updated b ≡ ok (b', next')
      → Between b' (suc level) next' [] [] × AreIndexed next' × SameLeaves b b'
  unfolding pure_loop
  pure_loop-IsMerkle level [] next updated b b' next' under r n inv e =
      let same : (b, next) ≡ (b', next') = ok_injective e in
      subst (λ s. Between s.0 (suc level) s.1 [] [] × AreIndexed s.1 × SameLeaves b s.0) same
        (turn b level next updated inv, n, λ i p. refl)
  pure_loop-IsMerkle level (leaf ∷ rest) next updated b b' next' under (small, r) n inv e =
      elim (Bool-cases (member (leaf.index / 2) updated)) [
        | inl done ↦
            pure_loop-IsMerkle level rest next updated b b' next' under r n
              (skip-IsMerkleBetween (calculate_hash poseidon) t.depth (seen b) level leaf rest next
                updated done inv)
              (sym (pure_loop-skip poseidon t batch level leaf rest next updated b done) ∙ e)
        | inr fresh ↦
            let (h, hashed, e1) =
              >>=-eq-ok (calculate_hash_for_node poseidon t batch b level leaf.index) _ (b', next')
                (sym (pure_loop-write poseidon t batch level leaf rest next updated b fresh) ∙ e) in
            let (b1, set, e2) =
              >>=-eq-ok (batch.set_leaf b (level + 1) (leaf.index / 2) h) _ (b', next') e1 in
            let changed = set_above b b1 level (leaf.index / 2) h under (omega arith) set in
            let joined =
              sym (
                calculate_hash_for_node-join poseidon t batch laws shallow b level leaf.index small)
              ∙ hashed in
            let (m, n', same) =
              pure_loop-IsMerkle level rest _ _ b1 b' next' under r
                (append-AreIndexed next (record { index = leaf.index / 2; value = h }) n
                  (omega arith))
                (write-IsMerkleBetween (calculate_hash poseidon) t.depth (seen b) level leaf rest
                  next updated (seen b1) h shallow under (omega arith) changed joined inv)
                e2 in
            (
              m,
              n',
              λ i p.
                  same i p
                  ∙ unchanged (calculate_hash poseidon) t.depth (seen b) (seen b1) level
                      (leaf.index / 2) h shallow under (omega arith) changed joined 0 i
                      (omega arith) p (λ f _. absurd (omega arith)),
            )
      ]
