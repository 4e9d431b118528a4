-- ===== src/Tree/Insert.antt =====
-- `InsertLeaf` of internal/zkregistry/sparse_tree.go: the tree while its levels are updated.
use mathlib.Core.Path.{ap₂, subst}
use native.Mathlib.Decide.{ℕ_discrete}
use merkle_proof_service.Prelude.{
  ℕ, zero, suc, ◌+◌, ◌-◌, ◌*◌, ◌/◌, ◌%◌, ◌^◌, ◌≤◌, ◌<◌, ◌≡◌, ◌≢◌, refl, sym, ◌∙◌, ap, true, false,
  ◌&&◌, Option, ◌⊎◌, inl, inr, arith, ◌==◌, if◌then◌else◌,
}
use merkle_proof_service.Tree.Result.{Result, ok, err, ◌>>=◌, >>=-eq-ok}
use merkle_proof_service.Tree.Sparse.{
  SparseMerkleTree, TreeLeafGetterSetter, calculate_hash, get_leaf_from_batch_or_storage,
  get_sibling_nodes, calculate_hash_for_node, insert_levels, insert_leaf,
}
use merkle_proof_service.Tree.Merkle.{join, IsMerkle}
use merkle_proof_service.Tree.Batch.{IsBatch, view_set}

-- A Merkle tree but for the parent of the node `index` of `level`: its hash is not written yet.
abbrev IsMerkleBut : (ℕ → ℕ → Result ℕ) → (ℕ → ℕ → Result ℕ) → ℕ → ℕ → ℕ → Type 0
IsMerkleBut hash node depth level j =
    (l i : ℕ)
    → l < depth
    → i < 2 ^ 31
    → (l ≡ level → i ≡ j → ⊥)
    → join hash node l i ≡ node (suc l) i

not_both : (a b c d : ℕ) → ((a ≡ b) → (c ≡ d) → ⊥) → (a == b && c == d) ≡ false
not_both a b c d h = ground (arith, h)

pub both : (a b c d : ℕ) → a ≡ b → c ≡ d → (a == b && c == d) ≡ true
both a b c d h k = ground arith

pub place : (a b c d : ℕ) → ((a ≡ b) × (c ≡ d)) ⊎ (a ≡ b → c ≡ d → ⊥)
place a b c d = elim (ℕ_discrete a b) [
  | no h ↦ inr (λ e _. h e)
  | yes e ↦ elim (ℕ_discrete c d) [ no k ↦ inr (λ _ f. k f) | yes f ↦ inl (e, f) ]
]

module _ (hash : ℕ → ℕ → Result ℕ) (depth : ℕ) (node node' : ℕ → ℕ → Result ℕ) (level j h : ℕ)
    (shallow : depth ≤ 32) (below : level < depth) (small : j < 2 ^ 31)
    (changed : (l i : ℕ)
      → l < 256
      → i < 2 ^ 32
      → node' l i ≡ (if suc level == l && j == i then ok h else node l i))
    (hashed : join hash node level j ≡ ok h) where
  pub unchanged :
      (l i : ℕ) → l < 256 → i < 2 ^ 32 → (suc level ≡ l → j ≡ i → ⊥) → node' l i ≡ node l i
  unchanged l i p q ne = rw (changed l i p q, not_both (suc level) l j i ne) refl

  -- Writing the hash of a node's children mends its parent, and breaks at most the next one.
  mend : IsMerkleBut hash node depth level j → IsMerkleBut hash node' depth (suc level) (j / 2)
  mend almost l i p q other = elim (place l level i j) [
    | inl (e, f) ↦
        rw
          (
            unchanged l (2 * i) (omega arith) (omega arith) (λ g _. absurd (omega arith)),
            unchanged l (2 * i + 1) (omega arith) (omega arith) (λ g _. absurd (omega arith)),
            changed (suc l) i (omega arith) (omega arith),
            both (suc level) (suc l) j i (omega arith) (omega arith),
          )
          (ap₂ (join hash node) e f ∙ hashed)
    | inr there ↦
        rw
          (
            unchanged l (2 * i) (omega arith) (omega arith)
                (λ e f. other (omega arith) (omega arith)),
            unchanged l (2 * i + 1) (omega arith) (omega arith)
                (λ e f. other (omega arith) (omega arith)),
            unchanged (suc l) i (omega arith) (omega arith)
                (λ e f. there (omega arith) (omega arith)),
          )
          (almost l i p q there)
  ]

module _ (poseidon : ℕ → ℕ → Option ℕ) (t : SparseMerkleTree) {B : Type 0}
    (batch : TreeLeafGetterSetter B) (laws : IsBatch batch) (shallow : t.depth ≤ 32) where
  -- A node of the tree seen through the batch.
  abbrev view : B → ℕ → ℕ → Result ℕ
  view b = get_leaf_from_batch_or_storage poseidon t batch b

  pair_bind :
      (m n : Result ℕ) (f : ℕ → ℕ → Result ℕ)
      → (◌>>=◌ {A = ℕ × ℕ} (m >>= λ a. n >>= λ b. ok (a, b)) (λ p. f p.0 p.1))
        ≡ (m >>= λ a. n >>= λ b. f a b)
  pair_bind (ok a) (ok b) f = refl
  pair_bind (ok a) (err e) f = refl
  pair_bind (err e) n f = refl

  pub calculate_hash_for_node-join :
      (b : B) (level index : ℕ)
      → index < 2 ^ 32
      → calculate_hash_for_node poseidon t batch b level index
        ≡ join (calculate_hash poseidon) (view b) level (index / 2)
  unfolding calculate_hash_for_node get_sibling_nodes
  calculate_hash_for_node-join b level index small =
      pair_bind (view b level left) (view b level right) (calculate_hash poseidon)
      ∙ ap₂ (λ m n. m >>= λ a. n >>= λ c. calculate_hash poseidon a c)
          (ap (view b level) (ground arith)) (ap (view b level) (ground arith))
    where
      left : ℕ
      left = if index % 2 == 0 then index else index - 1

      right : ℕ
      right = if index % 2 == 0 then (index + 1) % 2 ^ 32 else index

  insert_levels-IsMerkle :
      (k level index : ℕ) (b b' : B)
      → level + k ≡ t.depth
      → index < 2 ^ 32
      → IsMerkleBut (calculate_hash poseidon) (view b) t.depth level (index / 2)
      → insert_levels poseidon t batch k level index b ≡ ok b'
      → IsMerkle (calculate_hash poseidon) (view b') t.depth
        × ((i : ℕ) → i < 2 ^ 32 → view b' 0 i ≡ view b 0 i)
  unfolding insert_levels
  insert_levels-IsMerkle zero level index b b' e small almost h =
      let same : b ≡ b' = cc in
      subst
        (λ c.
          IsMerkle (calculate_hash poseidon) (view c) t.depth
          × ((i : ℕ) → i < 2 ^ 32 → view c 0 i ≡ view b 0 i))
        same (λ l i p q. almost l i p q (λ f _. absurd (omega arith)), λ i _. refl)
  insert_levels-IsMerkle (suc k) level index b b' e small almost h =
      let (hash, hashed, h1) =
        >>=-eq-ok (calculate_hash_for_node poseidon t batch b level index) _ b' h in
      let (b1, set, h2) = >>=-eq-ok (batch.set_leaf b (level + 1) (index / 2) hash) _ b' h1 in
      let changed : (l i : ℕ)
          → l < 256
          → i < 2 ^ 32
          → view b1 l i ≡ (if suc level == l && index / 2 == i then ok hash else view b l i) =
        λ l i p q. rw (let a : level + 1 ≡ suc level = omega arith in a) at (
          view_set poseidon t batch laws b b1 (level + 1) (index / 2) hash l i (omega arith)
            (omega arith) p q set) in
      let mended =
        mend (calculate_hash poseidon) t.depth (view b) (view b1) level (index / 2) hash shallow
          (omega arith) (omega arith) changed
          (sym (calculate_hash_for_node-join b level index small) ∙ hashed) almost in
      let (merkle, leaves) =
        insert_levels-IsMerkle k (level + 1) (index / 2) b1 b' (omega arith) (omega arith)
          (subst (λ l. IsMerkleBut (calculate_hash poseidon) (view b1) t.depth l (index / 2 / 2))
            (let a : suc level ≡ level + 1 = omega arith in a) mended)
          h2 in
      (
        merkle,
        λ i q.
            leaves i q
            ∙ unchanged (calculate_hash poseidon) t.depth (view b) (view b1) level (index / 2) hash
                shallow (omega arith) (omega arith) changed
                (sym (calculate_hash_for_node-join b level index small) ∙ hashed) 0 i (omega arith)
                q (λ f _. absurd (omega arith)),
      )

  -- A write of a leaf breaks the parent of the leaf at most.
  pub untouched :
      (b b' : B) (index value l i : ℕ)
      → index < 2 ^ 32
      → l < 256
      → i < 2 ^ 32
      → batch.set_leaf b 0 index value ≡ ok b'
      → (0 ≡ l → index ≡ i → ⊥)
      → view b' l i ≡ view b l i
  untouched b b' index value l i small p q set ne =
      rw
        (
          view_set poseidon t batch laws b b' 0 index value l i (omega arith) small p q set,
          not_both 0 l index i ne,
        )
        refl

  pub written :
      (b b' : B) (index value : ℕ)
      → index < 2 ^ 32
      → batch.set_leaf b 0 index value ≡ ok b'
      → view b' 0 index ≡ ok value
  written b b' index value small set =
      rw
        (
          view_set poseidon t batch laws b b' 0 index value 0 index (omega arith) small
              (omega arith) small set,
          both 0 0 index index refl refl,
        )
        refl

  set_leaf-IsMerkleBut :
      (b b' : B) (index value : ℕ)
      → index < 2 ^ 32
      → batch.set_leaf b 0 index value ≡ ok b'
      → IsMerkle (calculate_hash poseidon) (view b) t.depth
      → IsMerkleBut (calculate_hash poseidon) (view b') t.depth 0 (index / 2)
  set_leaf-IsMerkleBut b b' index value small set merkle l i p q other =
      rw
        (
          untouched b b' index value l (2 * i) small (omega arith) (omega arith) set
              (λ e f. other (omega arith) (omega arith)),
          untouched b b' index value l (2 * i + 1) small (omega arith) (omega arith) set
              (λ e f. other (omega arith) (omega arith)),
          untouched b b' index value (suc l) i small (omega arith) (omega arith) set
              (λ e f. absurd (omega arith)),
        )
        (merkle l i p q)

-- In a tree of a depth of 32 at most that is a Merkle tree as seen through a batch that keeps what is
-- written to it, `InsertLeaf`, when it returns without an error, leaves a Merkle tree in which the
-- leaf has its new value and the other leaves have the values they had.
pub insert_leaf-IsMerkle :
    (poseidon : ℕ → ℕ → Option ℕ) (t : SparseMerkleTree) {B : Type 0}
    (batch : TreeLeafGetterSetter B)
    → IsBatch batch
    → t.depth ≤ 32
    → (b b' : B) (index value : ℕ) → index < 2 ^ 32
    → IsMerkle (calculate_hash poseidon) (get_leaf_from_batch_or_storage poseidon t batch b) t.depth
    → insert_leaf poseidon t batch b index value ≡ ok b'
    → IsMerkle
        (calculate_hash poseidon)
        (get_leaf_from_batch_or_storage poseidon t batch b')
        t.depth
      × (get_leaf_from_batch_or_storage poseidon t batch b' 0 index ≡ ok value)
      × ((i : ℕ)
          → i < 2 ^ 32
          → index ≢ i
          → get_leaf_from_batch_or_storage poseidon t batch b' 0 i
            ≡ get_leaf_from_batch_or_storage poseidon t batch b 0 i)
unfolding insert_leaf
insert_leaf-IsMerkle poseidon t batch laws shallow b b' index value small merkle h =
    let (b1, set, h1) = >>=-eq-ok (batch.set_leaf b 0 index value) _ b' h in
    let (merkle', leaves) =
      insert_levels-IsMerkle poseidon t batch laws shallow t.depth 0 index b1 b' (omega arith) small
        (set_leaf-IsMerkleBut poseidon t batch laws shallow b b1 index value small set merkle) h1 in
    (
      merkle',
      leaves index small ∙ written poseidon t batch laws shallow b b1 index value small set,
      λ i q ne.
          leaves i q
          ∙ untouched poseidon t batch laws shallow b b1 index value 0 i small (omega arith) q set
              (λ _ f. ne f),
    )
