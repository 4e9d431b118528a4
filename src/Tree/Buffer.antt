-- ===== src/Tree/Buffer.antt =====
-- BatchWithLeavesBuffer of internal/zkregistry/batch_with_leaves.go, and `makeLeafKey` of
-- internal/zkregistry/leaf_storage.go. The database's batch is third-party code: `Set` and `Bytes`
-- of uint256 are parameters. The mutex is left out: each operation runs alone.
use merkle_proof_service.Prelude.{
  ℕ, subst, sym, ◌∙◌, ==_refl, ==→eq, ◌/◌, ◌%◌, ◌^◌, ◌<◌, ◌≡◌, refl, Bool, true, false, ◌&&◌, List,
  [], ◌∷◌, inl, inr, arith, ◌==◌, if◌then◌else◌, Bool-cases,
}
use merkle_proof_service.Tree.Result.{Result, ok, err, not_found, ok_injective, ◌>>=◌}
use merkle_proof_service.Tree.Sparse.{TreeLeafGetterSetter}
use merkle_proof_service.Tree.Batch.{IsBatch}

-- A byte string.
abbrev pub Bytes : Type 0
Bytes = List ℕ

-- storage.MerkleTreeLeafKeyPrefix
abbrev merkle_tree_leaf_key_prefix : ℕ
merkle_tree_leaf_key_prefix = 1

-- The bytes of binary.BigEndian.PutUint32
unfoldable pub put_uint32 : ℕ → Bytes
put_uint32 n = n / 2 ^ 24 % 256 ∷ n / 2 ^ 16 % 256 ∷ n / 2 ^ 8 % 256 ∷ n % 256 ∷ []

unfoldable pub make_leaf_key : ℕ → ℕ → ℕ → Bytes
make_leaf_key registry_index level index =
    merkle_tree_leaf_key_prefix ∷ registry_index % 256 ∷ level % 256 ∷ put_uint32 index

-- Equality of keys
unfoldable pub key_eq : Bytes → Bytes → Bool
key_eq [] [] = true
key_eq (x ∷ xs) (y ∷ ys) = x == y && key_eq xs ys
key_eq _ _ = false

-- A map with keys of bytes: an assignment hides what the key had before.
unfoldable pub lookup : Bytes → List (Bytes × ℕ) → Result ℕ
lookup key [] = err not_found
lookup key ((k, v) ∷ rest) = if key_eq k key then ok v else lookup key rest

pub record BatchWithLeavesBuffer (D : Type 0) : Type 0 where
  pub batch : D
  pub index : ℕ
  pub buffer : List (Bytes × ℕ)

module _ {D : Type 0} (set : D → Bytes → Bytes → Result D) (bytes : ℕ → Bytes) where
  -- The value is in the buffer also when `Set` fails, which leaves the database's batch as it was.
  unfoldable pub set_leaf :
      BatchWithLeavesBuffer D → ℕ → ℕ → ℕ → BatchWithLeavesBuffer D × Result (Unit {0})
  set_leaf b level index value =
      let key : Bytes = make_leaf_key b.index level index in
      let written : Result D = set b.batch key (bytes value) in
      (
        record {
          batch = elim written [ ok d ↦ d | err e ↦ b.batch ];
          index = b.index;
          buffer = (key, value) ∷ b.buffer;
        },
        written >>= λ _. ok tt,
      )

  unfoldable pub get_leaf : BatchWithLeavesBuffer D → ℕ → ℕ → Result ℕ
  get_leaf b level index = lookup (make_leaf_key b.index level index) b.buffer

  -- SetLeaf as the tree calls it: on an error the tree returns at once, and CommitOperations drops the
  -- buffer.
  abbrev set_leaf_or_fail : BatchWithLeavesBuffer D → ℕ → ℕ → ℕ → Result (BatchWithLeavesBuffer D)
  set_leaf_or_fail b level index value =
      let (b', outcome) = set_leaf b level index value in outcome >>= λ _. ok b'

  abbrev pub leaves_buffer : TreeLeafGetterSetter (BatchWithLeavesBuffer D)
  leaves_buffer = record { get_leaf = get_leaf; set_leaf = set_leaf_or_fail }

and_true : (a b : Bool) → (a && b) ≡ true → (a ≡ true) × (b ≡ true)
and_true true true h = (refl, refl)
and_true true false h = cc
and_true false b h = cc

key_eq_refl : (k : Bytes) → key_eq k k ≡ true
unfolding key_eq
key_eq_refl [] = refl
key_eq_refl (x ∷ xs) = rw (==_refl x, key_eq_refl xs) refl

uint32_of_bytes :
    (m n : ℕ)
    → m < 2 ^ 32
    → n < 2 ^ 32
    → m / 2 ^ 24 % 256 ≡ n / 2 ^ 24 % 256
    → m / 2 ^ 16 % 256 ≡ n / 2 ^ 16 % 256
    → m / 2 ^ 8 % 256 ≡ n / 2 ^ 8 % 256
    → m % 256 ≡ n % 256
    → m ≡ n
uint32_of_bytes m n p q a b c d = omega arith

put_uint32-key_eq :
    (m n : ℕ) → m < 2 ^ 32 → n < 2 ^ 32 → key_eq (put_uint32 m) (put_uint32 n) ≡ true → m ≡ n
unfolding put_uint32 key_eq
put_uint32-key_eq m n p q h =
    let (a, h1) = and_true _ _ h in
    let (b, h2) = and_true _ _ h1 in
    let (c, h3) = and_true _ _ h2 in
    let (d, _) = and_true _ _ h3 in
    uint32_of_bytes m n p q (==→eq _ _ a) (==→eq _ _ b) (==→eq _ _ c) (==→eq _ _ d)

level_of_byte : (a b : ℕ) → a < 256 → b < 256 → a % 256 ≡ b % 256 → a ≡ b
level_of_byte a b p q h = omega arith

-- Keys are made of a level and an index in one way only.
make_leaf_key_injective :
    (r l i level index : ℕ)
    → l < 256
    → i < 2 ^ 32
    → level < 256
    → index < 2 ^ 32
    → key_eq (make_leaf_key r level index) (make_leaf_key r l i) ≡ true
    → (level ≡ l) × (index ≡ i)
unfolding make_leaf_key key_eq
make_leaf_key_injective r l i level index p q p' q' h =
    let (_, h1) = and_true (merkle_tree_leaf_key_prefix == merkle_tree_leaf_key_prefix) _ h in
    let (_, h2) = and_true (r % 256 == r % 256) _ h1 in
    let (a, h3) = and_true _ _ h2 in
    let e : level % 256 ≡ l % 256 = ==→eq _ _ a in
    (level_of_byte level l p' p e, put_uint32-key_eq index i q' q h3)

make_leaf_key-key_eq :
    (r l i level index : ℕ)
    → l < 256
    → i < 2 ^ 32
    → level < 256
    → index < 2 ^ 32
    → key_eq (make_leaf_key r level index) (make_leaf_key r l i) ≡ (level == l && index == i)
make_leaf_key-key_eq r l i level index p q p' q' =
    elim (Bool-cases (key_eq (make_leaf_key r level index) (make_leaf_key r l i))) [
      | inl same ↦
          let (e, f) = make_leaf_key_injective r l i level index p q p' q' same in
          same ∙ sym (rw (e, f, ==_refl l, ==_refl i) refl)
      | inr differ ↦ elim (Bool-cases (level == l && index == i)) [
        | inl both ↦
            let (a, b) = and_true (level == l) (index == i) both in
            rw
              (
                ==→eq level l a,
                ==→eq index i b,
                key_eq_refl (make_leaf_key r l i),
                ==_refl l,
                ==_refl i,
              )
              refl
        | inr other ↦ differ ∙ sym other
      ]
    ]

-- After SetLeaf, whether or not `Set` failed, the leaf is found under its level and index, and what
-- was under another stays.
set_leaf-get_leaf :
    {D : Type 0} (set : D → Bytes → Bytes → Result D) (bytes : ℕ → Bytes)
    → (b : BatchWithLeavesBuffer D) (level index value l i : ℕ) → level < 256
    → index < 2 ^ 32
    → l < 256
    → i < 2 ^ 32
    → get_leaf set bytes (set_leaf set bytes b level index value).0 l i
      ≡ (if level == l && index == i then ok value else get_leaf set bytes b l i)
unfolding set_leaf get_leaf lookup
set_leaf-get_leaf set bytes b level index value l i h1 h2 h3 h4 =
    rw (make_leaf_key-key_eq b.index l i level index h3 h4 h1 h2) refl

-- A write that `Set` takes gives the batch after it.
set_leaf_or_fail_lem :
    {D : Type 0} (set : D → Bytes → Bytes → Result D) (bytes : ℕ → Bytes)
    → ((d : D) (k v : Bytes) → (d' : D) × (set d k v ≡ ok d'))
    → (b : BatchWithLeavesBuffer D) (level index value : ℕ)
    → set_leaf_or_fail set bytes b level index value ≡ ok (set_leaf set bytes b level index value).0
unfolding set_leaf
set_leaf_or_fail_lem set bytes total b level index value =
    let (d, e) = total b.batch (make_leaf_key b.index level index) (bytes value) in rw e refl

-- The batch is what the tree relies on, when the database's batch takes every key and value: a leaf
-- that was set is found under its level and index, and no other.
pub leaves_buffer-IsBatch :
    {D : Type 0} (set : D → Bytes → Bytes → Result D) (bytes : ℕ → Bytes)
    → ((d : D) (k v : Bytes) → (d' : D) × (set d k v ≡ ok d'))
    → IsBatch (leaves_buffer set bytes)
leaves_buffer-IsBatch set bytes total = record {
  writes = λ b level index value. (
    (set_leaf set bytes b level index value).0,
    set_leaf_or_fail_lem set bytes total b level index value,
  );
  reads = λ b b' level index value l i h1 h2 h3 h4 h.
      subst
        (λ c.
          get_leaf set bytes c l i
          ≡ (if level == l && index == i then ok value else get_leaf set bytes b l i))
        (ok_injective (sym (set_leaf_or_fail_lem set bytes total b level index value) ∙ h))
        (set_leaf-get_leaf set bytes b level index value l i h1 h2 h3 h4);
}
