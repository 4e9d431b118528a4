-- ===== src/Tree/InPlace.antt =====
-- The loop of `InsertLeaves` of internal/zkregistry/sparse_tree.go over a level, and the array that
-- it reads from and writes to.
use merkle_proof_service.Prelude.{
  ℕ, zero, suc, ◌+◌, ◌/◌, ◌≤◌, ◌≡◌, refl, sym, ap, fun_ext, ◌∙◌, Bool, true, false, Option, some,
  List, [], ◌∷◌, ◌++◌, inl, inr, arith, if◌then◌else◌, Bool-cases, length, length-append,
}
use merkle_proof_service.Tree.Result.{◌>>=◌}
use merkle_proof_service.Tree.Sparse.{
  SparseMerkleTree, TreeLeafGetterSetter, calculate_hash_for_node,
}
use merkle_proof_service.Tree.Leaves.{
  TreeLeaf, member, leaf_at, overwrite, drop, level_loop, pure_loop,
}

leaf_at-drop :
    (xs : List TreeLeaf) (p : ℕ) (k : ℕ)
    → p + suc k ≡ length xs
    → (x : TreeLeaf) × (leaf_at xs p ≡ some x) × (drop p xs ≡ x ∷ drop (suc p) xs)
leaf_at-drop [] p k h = absurd (omega arith)
leaf_at-drop (x ∷ xs) zero k h = (x, refl, refl)
leaf_at-drop (x ∷ xs) (suc p) k h = leaf_at-drop xs p k (omega arith)

drop-overwrite :
    (xs : List TreeLeaf) (p q : ℕ) (x : TreeLeaf)
    → q ≤ p
    → drop (suc p) (overwrite xs q x) ≡ drop (suc p) xs
drop-overwrite [] p q x h = refl
drop-overwrite (y ∷ ys) p zero x h = refl
drop-overwrite (y ∷ ys) zero (suc q) x h = absurd (omega arith)
drop-overwrite (y ∷ ys) (suc p) (suc q) x h = drop-overwrite ys p q x (omega arith)

length-overwrite :
    (xs : List TreeLeaf) (q : ℕ) (x : TreeLeaf) → length (overwrite xs q x) ≡ length xs
length-overwrite [] q x = refl
length-overwrite (y ∷ ys) zero x = refl
length-overwrite (y ∷ ys) (suc q) x = ap suc (length-overwrite ys q x)

drop-length : (xs : List TreeLeaf) (p : ℕ) → p ≡ length xs → drop p xs ≡ []
drop-length [] zero h = refl
drop-length [] (suc p) h = refl
drop-length (x ∷ xs) zero h = absurd (omega arith)
drop-length (x ∷ xs) (suc p) h = drop-length xs p (omega arith)

-- Writing the next level into the array does not reach the leaves that are still to be read.
next_array :
    (shared : Bool) (xs : List TreeLeaf) (p q : ℕ) (x : TreeLeaf)
    → q ≤ p
    → (drop (suc p) (if shared then overwrite xs q x else xs) ≡ drop (suc p) xs)
      × (length (if shared then overwrite xs q x else xs) ≡ length xs)
next_array true xs p q x h = (drop-overwrite xs p q x h, length-overwrite xs q x)
next_array false xs p q x h = (refl, refl)

module _ (poseidon : ℕ → ℕ → Option ℕ) (t : SparseMerkleTree) {B : Type 0}
    (batch : TreeLeafGetterSetter B) where
  level_loop-skip :
      (shared : Bool) (level k p : ℕ) (leaves next : List TreeLeaf) (updated : List ℕ) (b : B)
      (x : TreeLeaf)
      → leaf_at leaves p ≡ some x
      → member (x.index / 2) updated ≡ true
      → level_loop poseidon t batch shared level (suc k) p leaves next updated b
        ≡ level_loop poseidon t batch shared level k (p + 1) leaves next updated b
  unfolding level_loop
  level_loop-skip shared level k p leaves next updated b x at same =
      rw (at, level_loop) (rw same refl)

  level_loop-write :
      (shared : Bool) (level k p : ℕ) (leaves next : List TreeLeaf) (updated : List ℕ) (b : B)
      (x : TreeLeaf)
      → leaf_at leaves p ≡ some x
      → member (x.index / 2) updated ≡ false
      → level_loop poseidon t batch shared level (suc k) p leaves next updated b ≡ (
          calculate_hash_for_node poseidon t batch b level x.index >>= λ h.
          batch.set_leaf b (level + 1) (x.index / 2) h >>= λ b'.
          level_loop poseidon t batch shared level k
            (p + 1)
            (if shared
              then overwrite leaves (length next) (record { index = x.index / 2; value = h })
              else leaves)
            (next ++ (record { index = x.index / 2; value = h } ∷ []))
            (x.index / 2 ∷ updated)
            b')
  unfolding level_loop
  level_loop-write shared level k p leaves next updated b x at other =
      rw (at, level_loop) (rw other refl)

  pub pure_loop-skip :
      (level : ℕ) (x : TreeLeaf) (rest next : List TreeLeaf) (updated : List ℕ) (b : B)
      → member (x.index / 2) updated ≡ true
      → pure_loop poseidon t batch level (x ∷ rest) next updated b
        ≡ pure_loop poseidon t batch level rest next updated b
  unfolding pure_loop
  pure_loop-skip level x rest next updated b same = rw (same, pure_loop) refl

  pub pure_loop-write :
      (level : ℕ) (x : TreeLeaf) (rest next : List TreeLeaf) (updated : List ℕ) (b : B)
      → member (x.index / 2) updated ≡ false
      → pure_loop poseidon t batch level (x ∷ rest) next updated b ≡ (
          calculate_hash_for_node poseidon t batch b level x.index >>= λ h.
          batch.set_leaf b (level + 1) (x.index / 2) h >>= λ b'.
          pure_loop poseidon t batch level rest
            (next ++ (record { index = x.index / 2; value = h } ∷ []))
            (x.index / 2 ∷ updated)
            b')
  unfolding pure_loop
  pure_loop-write level x rest next updated b other = rw (other, pure_loop) refl

  -- From a position where the positions left, `k`, reach the end of the leaves, and not more leaves of
  -- the next level were written than leaves were read: the loop does the same, array shared or not, as
  -- the loop over the leaves left that nothing overwrites.
  pub level_loop-pure_loop :
      (shared : Bool) (level k p : ℕ) (leaves next : List TreeLeaf) (updated : List ℕ) (b : B)
      → p + k ≡ length leaves
      → length next ≤ p
      → level_loop poseidon t batch shared level k p leaves next updated b
        ≡ pure_loop poseidon t batch level (drop p leaves) next updated b
  unfolding level_loop pure_loop
  level_loop-pure_loop shared level zero p leaves next updated b e h =
      rw (drop-length leaves p (omega arith)) refl
  level_loop-pure_loop shared level (suc k) p leaves next updated b e h =
      let (x, at, rest) = leaf_at-drop leaves p k e in
      elim (Bool-cases (member (x.index / 2) updated)) [
        | inl same ↦
            level_loop-skip shared level k p leaves next updated b x at same
            ∙ level_loop-pure_loop shared level k (p + 1) leaves next updated b (omega arith)
                (omega arith)
            ∙ ap (λ q. pure_loop poseidon t batch level (drop q leaves) next updated b)
                (let a : p + 1 ≡ suc p = omega arith in a)
            ∙ sym (pure_loop-skip level x (drop (suc p) leaves) next updated b same)
            ∙ sym (ap (λ xs. pure_loop poseidon t batch level xs next updated b) rest)
        | inr other ↦
            level_loop-write shared level k p leaves next updated b x at other
            ∙ ap (◌>>=◌ (calculate_hash_for_node poseidon t batch b level x.index)) (
                fun_ext (λ h'. ap (◌>>=◌ (batch.set_leaf b (level + 1) (x.index / 2) h')) (
                  fun_ext
                    (λ b'. write (level_loop-pure_loop shared level k (p + 1)) x.index h' b'))))
            ∙ sym (pure_loop-write level x (drop (suc p) leaves) next updated b other)
            ∙ sym (ap (λ xs. pure_loop poseidon t batch level xs next updated b) rest)
      ]
    where
      write :
          ((leaves' next' : List TreeLeaf) (updated' : List ℕ) (c : B)
            → p + 1 + k ≡ length leaves'
            → length next' ≤ p + 1
            → level_loop poseidon t batch shared level k (p + 1) leaves' next' updated' c
              ≡ pure_loop poseidon t batch level (drop (p + 1) leaves') next' updated' c)
          → (i h' : ℕ) (b' : B)
          → level_loop poseidon t batch shared level k
              (p + 1)
              (if shared
                then overwrite leaves (length next) (record { index = i / 2; value = h' })
                else leaves)
              (next ++ (record { index = i / 2; value = h' } ∷ []))
              (i / 2 ∷ updated)
              b'
            ≡ pure_loop poseidon t batch level
                (drop (suc p) leaves)
                (next ++ (record { index = i / 2; value = h' } ∷ []))
                (i / 2 ∷ updated)
                b'
      write step i h' b' =
          let new : TreeLeaf = record { index = i / 2; value = h' } in
          let (kept, long) = next_array shared leaves p (length next) new h in
          let more : length (next ++ (new ∷ [])) ≡ length next + 1 =
            length-append next (new ∷ []) in
          step (if shared then overwrite leaves (length next) new else leaves) (next ++ (new ∷ []))
            (i / 2 ∷ updated) b' (omega arith) (omega arith)
          ∙ ap (λ xs. pure_loop poseidon t batch level xs (next ++ (new ∷ [])) (i / 2 ∷ updated) b')
              (ap (λ q. drop q (if shared then overwrite leaves (length next) new else leaves))
                  (let a : p + 1 ≡ suc p = omega arith in a)
                ∙ kept)
