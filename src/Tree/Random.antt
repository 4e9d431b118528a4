-- ===== src/Tree/Random.antt =====
-- `GetRandomEmptyLeafIndex` of internal/zkregistry/sparse_tree.go. `rand` gives the answers of
-- rand.Uint64, and `done` tells in which round the context is done.
use merkle_proof_service.Prelude.{
  ℕ, zero, suc, ◌+◌, ◌%◌, ◌^◌, ◌≤◌, ◌<◌, ◌≡◌, refl, sym, ap, ◌∙◌, ◌⊎◌, Bool, false, inl, inr, arith,
  ◌==◌, if◌then◌else◌, Bool-cases,
}
use native.Mathlib.Nat.{mod-lt, pow-le-pow_right}
use merkle_proof_service.Tree.Result.{
  Result, ok, err, not_found, invalid_level, invalid_depth, invalid_hash, cancelled, storage_failed,
  no_empty_leaf, panic, ok_injective,
}
use merkle_proof_service.Tree.Sparse.{SparseMerkleTree}

abbrev max_iterations_empty_leaf_proof : ℕ
max_iterations_empty_leaf_proof = 10

-- 1 << depth, a uint64
unfoldable pub max_leaves : SparseMerkleTree → ℕ
max_leaves t = 2 ^ t.depth % 2 ^ 64

-- The index when the storage has no leaf there, and the later rounds otherwise.
unfoldable pub or_again : ℕ → Result ℕ → Result ℕ → Result ℕ
or_again index (err not_found) later = ok index
or_again index (err e) later = later
or_again index (ok leaf) later = later

module _ (t : SparseMerkleTree) (done : ℕ → Bool) (rand : ℕ → ℕ) where
  abbrev pub random_index : ℕ → ℕ
  random_index n = rand n % max_leaves t % 2 ^ 32

  -- The rounds from `n` on, `k` of them. A remainder by 0 panics.
  unfoldable pub random_rounds : ℕ → ℕ → Result ℕ
  random_rounds zero n = err no_empty_leaf
  random_rounds (suc k) n =
      let later = random_rounds k (n + 1) in
      if done n
      then err cancelled
      else if max_leaves t == 0
      then err panic
      else or_again (random_index n) (t.storage_leaf_getter 0 (random_index n)) later

  unfoldable pub get_random_empty_leaf_index : Result ℕ
  get_random_empty_leaf_index = random_rounds max_iterations_empty_leaf_proof 0

  or_again-ok :
      (index : ℕ) (r later : Result ℕ) (i : ℕ)
      → or_again index r later ≡ ok i
      → ((r ≡ err not_found) × (index ≡ i)) ⊎ (later ≡ ok i)
  unfolding or_again
  or_again-ok index (err not_found) later i h = inl (refl, ok_injective h)
  or_again-ok index (ok leaf) later i h = inr h
  or_again-ok index (err invalid_level) later i h = inr h
  or_again-ok index (err invalid_depth) later i h = inr h
  or_again-ok index (err invalid_hash) later i h = inr h
  or_again-ok index (err cancelled) later i h = inr h
  or_again-ok index (err storage_failed) later i h = inr h
  or_again-ok index (err no_empty_leaf) later i h = inr h
  or_again-ok index (err panic) later i h = inr h

  random_rounds-ok :
      (k n i : ℕ)
      → random_rounds k n ≡ ok i
      → (m : ℕ) × (t.storage_leaf_getter 0 i ≡ err not_found) × (random_index m ≡ i)
  unfolding random_rounds
  random_rounds-ok zero n i h = cc
  random_rounds-ok (suc k) n i h = elim (Bool-cases (done n)) [
    | inl stop ↦ absurd (let e : err cancelled ≡ ok i = rw stop at h in cc)
    | inr running ↦ elim (Bool-cases (max_leaves t == 0)) [
      | inl none_left ↦ absurd (let e : err panic ≡ ok i = rw (running, none_left) at h in cc)
      | inr some_left ↦
          elim (or_again-ok (random_index n) (t.storage_leaf_getter 0 (random_index n))
            (random_rounds k (n + 1)) i (rw (running, some_left) at h)) [
              | inl (e, f) ↦ (n, ap (t.storage_leaf_getter 0) (sym f) ∙ e, f)
              | inr later ↦ random_rounds-ok k (n + 1) i later
            ]
    ]
  ]

  or_again-later :
      (index : ℕ) (r later : Result ℕ) (i : ℕ)
      → later ≡ ok i
      → (j : ℕ) × (or_again index r later ≡ ok j)
  unfolding or_again
  or_again-later index (err not_found) later i h = (index, refl)
  or_again-later index (ok leaf) later i h = (i, h)
  or_again-later index (err invalid_level) later i h = (i, h)
  or_again-later index (err invalid_depth) later i h = (i, h)
  or_again-later index (err invalid_hash) later i h = (i, h)
  or_again-later index (err cancelled) later i h = (i, h)
  or_again-later index (err storage_failed) later i h = (i, h)
  or_again-later index (err no_empty_leaf) later i h = (i, h)
  or_again-later index (err panic) later i h = (i, h)

  or_again-empty :
      (index : ℕ) (r later : Result ℕ) → r ≡ err not_found → or_again index r later ≡ ok index
  unfolding or_again
  or_again-empty index r later h = rw h refl

  random_rounds-found :
      (k n m : ℕ)
      → m < k
      → ((round : ℕ) → done round ≡ false)
      → (max_leaves t == 0) ≡ false
      → t.storage_leaf_getter 0 (random_index (n + m)) ≡ err not_found
      → (i : ℕ) × (random_rounds k n ≡ ok i)
  unfolding random_rounds
  random_rounds-found zero n m p running some_left h = absurd (omega arith)
  random_rounds-found (suc k) n zero p running some_left h =
      let here =
        ap (λ a. t.storage_leaf_getter 0 (random_index a)) (let a : n ≡ n + 0 = omega arith in a)
        ∙ h in
      (
        random_index n,
        rw (running n, some_left)
            (or_again-empty (random_index n) (t.storage_leaf_getter 0 (random_index n))
              (random_rounds k (n + 1)) here),
      )
  random_rounds-found (suc k) n (suc m) p running some_left h =
      let there =
        ap (λ a. t.storage_leaf_getter 0 (random_index a))
          (let a : n + 1 + m ≡ n + suc m = omega arith in a)
        ∙ h in
      let (i, e) = random_rounds-found k (n + 1) m (omega arith) running some_left there in
      let (j, f) =
        or_again-later (random_index n) (t.storage_leaf_getter 0 (random_index n))
          (random_rounds k (n + 1)) i e in
      (j, rw (running n, some_left) f)

low_word : (x d i : ℕ) → x < d → x % 2 ^ 32 ≡ i → i < d
low_word x d i h e = omega arith

in_range : (r d m i : ℕ) → d ≤ 2 ^ 32 → 0 < d → m ≡ d % 2 ^ 64 → r % m % 2 ^ 32 ≡ i → i < d
in_range r d m i h p f e =
    let q : r % m < m = mod-lt r (omega arith) in low_word (r % m) d i (omega arith) e

-- In a tree of a depth of 32 at most, an index that `GetRandomEmptyLeafIndex` returns is an index of the
-- tree at which the storage has no leaf; and when the context is not done and the random number of
-- one of the ten rounds falls on such an index, it returns an index.
pub get_random_empty_leaf_index-IsEmpty :
    (t : SparseMerkleTree)
    → t.depth ≤ 32
    → (done : ℕ → Bool) (rand : ℕ → ℕ)
    → ((i : ℕ)
        → get_random_empty_leaf_index t done rand ≡ ok i
        → (i < 2 ^ t.depth) × (t.storage_leaf_getter 0 i ≡ err not_found))
      × ((n : ℕ)
          → n < 10
          → ((round : ℕ) → done round ≡ false)
          → t.storage_leaf_getter 0 (random_index t done rand n) ≡ err not_found
          → (i : ℕ) × (get_random_empty_leaf_index t done rand ≡ ok i))
unfolding get_random_empty_leaf_index max_leaves
get_random_empty_leaf_index-IsEmpty t shallow done rand =
    let wide : 2 ^ t.depth ≤ 2 ^ 32 = pow-le-pow_right {n = 2} (omega arith) shallow in
    let no_less : 0 ≤ t.depth = omega arith in
    let some_leaf : 2 ^ 0 ≤ 2 ^ t.depth = pow-le-pow_right {n = 2} (omega arith) no_less in
    (
      λ i e.
          let (m, empty, f) = random_rounds-ok t done rand 10 0 i e in
          (
            in_range (rand m) (2 ^ t.depth) (2 ^ t.depth % 2 ^ 64) i wide (omega arith) refl f,
            empty,
          ),
      λ n p running e.
          random_rounds-found t done rand 10 0 n p running
            (nonzero (2 ^ t.depth) wide (omega arith))
            (ap (λ a. t.storage_leaf_getter 0 (random_index t done rand a))
                (let a : 0 + n ≡ n = omega arith in a)
              ∙ e),
    )
  where
    nonzero : (d : ℕ) → d ≤ 2 ^ 32 → 0 < d → (d % 2 ^ 64 == 0) ≡ false
    nonzero d h k = ground (arith, h, k)
