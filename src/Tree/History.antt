-- ===== src/Tree/History.antt =====
-- Histories of a tree: insertions of leaves by `InsertLeaves`, each through a new batch that is written to the storage
-- before the next. That the storage then gives what the batch gave, and for other leaves what it gave
-- before, is a hypothesis on the database.
use merkle_proof_service.Prelude.{
  ℕ, suc, All, ap, ◌+◌, ◌*◌, ◌^◌, ◌≤◌, ◌<◌, ◌≡◌, subst, fun_ext, refl, sym, ◌∙◌, Option, List, [],
  ◌∷◌, arith,
}
use merkle_proof_service.Tree.Result.{Result, ok, err, not_found, ok_injective}
use merkle_proof_service.Tree.Sparse.{
  SparseMerkleTree, TreeLeafGetter, TreeLeafGetterSetter, calculate_hash, get_leaf_from_storage,
  get_leaf_from_batch_or_storage,
}
use merkle_proof_service.Tree.Merkle.{IsMerkle, IsHash, IsReadable}
use merkle_proof_service.Tree.Batch.{IsBatch}
use merkle_proof_service.Tree.Leaves.{TreeLeaf, insert_leaves}
use merkle_proof_service.Tree.Together.{AreIndexed, assigned}
use merkle_proof_service.Tree.InsertLeaves.{insert_leaves-IsMerkle}
use merkle_proof_service.Tree.TotalLeaves.{insert_leaves-IsReadable}
use merkle_proof_service.Tree.Written.{
  written_leaf, written_tree, written_tree-through, empty_batch-through,
}

-- The trees that insertions lead to from a tree, each with its insertions, the last one first.
pub data Reached (poseidon : ℕ → ℕ → Option ℕ) (good : ℕ → Type 0) {B : Type 0}
    (batch : TreeLeafGetterSetter B) (new : B) (t : SparseMerkleTree)
    : List (List TreeLeaf) → SparseMerkleTree → Type 0 where
  start : Reached poseidon good batch new t [] t
  insertion :
      {history : List (List TreeLeaf)} {u : SparseMerkleTree} (leaves : List TreeLeaf) (b : B)
      (written : TreeLeafGetter)
      → Reached poseidon good batch new t history u
      → AreIndexed leaves
      → All (λ leaf. good leaf.value) leaves
      → insert_leaves poseidon u batch leaves new ≡ ok b
      → ((level i : ℕ)
          → written level i
            ≡ written_leaf (batch.get_leaf b level i) (u.storage_leaf_getter level i))
      → Reached poseidon good batch new t
          (leaves ∷ history)
          (record { empty_leaf = u.empty_leaf; depth = u.depth; storage_leaf_getter = written })

-- The value that a history gives a leaf.
unfoldable pub latest : List (List TreeLeaf) → (ℕ → Result ℕ) → ℕ → Result ℕ
latest [] before i = before i
latest (leaves ∷ history) before i = assigned leaves i (latest history before i)

-- What a tree of a history keeps.
pub record IsKept (poseidon : ℕ → ℕ → Option ℕ) (good : ℕ → Type 0) (t : SparseMerkleTree)
    (history : List (List TreeLeaf)) (u : SparseMerkleTree) : Type 0 where
  pub merkle : IsMerkle (calculate_hash poseidon) (get_leaf_from_storage poseidon u) u.depth
  pub readable : IsReadable good (get_leaf_from_storage poseidon u) u.depth
  pub depth_kept : u.depth ≡ t.depth
  pub leaves :
      (i : ℕ)
      → i < 2 ^ 32
      → get_leaf_from_storage poseidon u 0 i ≡ latest history (get_leaf_from_storage poseidon t 0) i

module _ (poseidon : ℕ → ℕ → Option ℕ) (good : ℕ → Type 0)
    (hashes : IsHash (calculate_hash poseidon) good) {B : Type 0} (batch : TreeLeafGetterSetter B)
    (laws : IsBatch batch) (new : B)
    (empty : (level i : ℕ) → batch.get_leaf new level i ≡ err not_found) where
  module _ (u : SparseMerkleTree)
      (merkle : IsMerkle (calculate_hash poseidon) (get_leaf_from_storage poseidon u) u.depth)
      (readable : IsReadable good (get_leaf_from_storage poseidon u) u.depth) where
    through_new-IsMerkle :
        IsMerkle
          (calculate_hash poseidon)
          (get_leaf_from_batch_or_storage poseidon u batch new)
          u.depth
    through_new-IsMerkle l i p q =
        rw
          (
            empty_batch-through poseidon u batch new l (2 * i) (empty l (2 * i)),
            empty_batch-through poseidon u batch new l (2 * i + 1) (empty l (2 * i + 1)),
            empty_batch-through poseidon u batch new (suc l) i (empty (suc l) i),
          )
          (merkle l i p q)

    pub through_new-IsReadable :
        IsReadable good (get_leaf_from_batch_or_storage poseidon u batch new) u.depth
    through_new-IsReadable l i p q =
        rw (empty_batch-through poseidon u batch new l i (empty l i)) (readable l i p q)

  module _ (u : SparseMerkleTree) (b : B) where
    written-IsMerkle :
        IsMerkle
          (calculate_hash poseidon)
          (get_leaf_from_batch_or_storage poseidon u batch b)
          u.depth
        → IsMerkle
            (calculate_hash poseidon)
            (get_leaf_from_storage poseidon (written_tree u batch b))
            u.depth
    written-IsMerkle merkle l i p q =
        rw
          (
            written_tree-through poseidon u batch b l (2 * i) (omega arith),
            written_tree-through poseidon u batch b l (2 * i + 1) (omega arith),
            written_tree-through poseidon u batch b (suc l) i (omega arith),
          )
          (merkle l i p q)

    written-IsReadable :
        IsReadable good (get_leaf_from_batch_or_storage poseidon u batch b) u.depth
        → IsReadable good (get_leaf_from_storage poseidon (written_tree u batch b)) u.depth
    written-IsReadable readable l i p q =
        rw (written_tree-through poseidon u batch b l i p) (readable l i p q)

  insertion-IsKept :
      (t : SparseMerkleTree) (history : List (List TreeLeaf)) (u : SparseMerkleTree)
      (leaves : List TreeLeaf) (b : B)
      → t.depth ≤ 32
      → IsKept poseidon good t history u
      → AreIndexed leaves
      → All (λ leaf. good leaf.value) leaves
      → insert_leaves poseidon u batch leaves new ≡ ok b
      → IsKept poseidon good t (leaves ∷ history) (written_tree u batch b)
  unfolding latest
  insertion-IsKept t history u leaves b shallow kept indexed fine e =
      let shallow' : u.depth ≤ 32 = rw (kept.depth_kept) shallow in
      let (merkle, set) =
        insert_leaves-IsMerkle poseidon u batch laws shallow' new b leaves indexed
          (through_new-IsMerkle u kept.merkle kept.readable) e in
      let (b1, e1, readable1) =
        insert_leaves-IsReadable poseidon u batch laws shallow' good hashes new leaves indexed fine
          (through_new-IsReadable u kept.merkle kept.readable) in
      record {
        merkle = written-IsMerkle u b merkle;
        readable = written-IsReadable u b (
            subst (λ c. IsReadable good (get_leaf_from_batch_or_storage poseidon u batch c) u.depth)
              (ok_injective (sym e1 ∙ e)) readable1);
        depth_kept = kept.depth_kept;
        leaves = λ i p.
            written_tree-through poseidon u batch b 0 i (omega arith)
            ∙ set i p
            ∙ ap (assigned leaves i)
                (empty_batch-through poseidon u batch new 0 i (empty 0 i) ∙ kept.leaves i p);
      }

  pub Reached-IsKept :
      (t : SparseMerkleTree)
      → t.depth ≤ 32
      → IsMerkle (calculate_hash poseidon) (get_leaf_from_storage poseidon t) t.depth
      → IsReadable good (get_leaf_from_storage poseidon t) t.depth
      → (history : List (List TreeLeaf)) (u : SparseMerkleTree)
      → Reached poseidon good batch new t history u
      → IsKept poseidon good t history u
  unfolding latest
  Reached-IsKept t shallow merkle readable h u start = record {
    merkle = merkle;
    readable = readable;
    depth_kept = refl;
    leaves = λ i p. refl;
  }
  Reached-IsKept t shallow merkle readable h _
        (insertion {history} {u} leaves b written before indexed fine e kept) =
      subst
        (λ getter.
          IsKept poseidon good t (leaves ∷ history)
            (record { empty_leaf = u.empty_leaf; depth = u.depth; storage_leaf_getter = getter }))
        (fun_ext (λ level. fun_ext (λ i. sym (kept level i))))
        (insertion-IsKept t history u leaves b shallow
          (Reached-IsKept t shallow merkle readable history u before) indexed fine e)
