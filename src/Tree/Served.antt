-- ===== src/Tree/Served.antt =====
-- `CreateProof` and `InsertLeaves` of internal/zkregistry/sparse_tree.go, over the histories of a tree
-- that began empty.
use merkle_proof_service.Prelude.{
  ℕ, All, ap, ◌^◌, ◌≤◌, ◌<◌, ◌≡◌, ◌∙◌, Bool, false, Option, List, [], ◌∷◌, arith,
}
use native.Mathlib.Nat.{pow-le-pow_right}
use merkle_proof_service.Tree.Result.{Result, ok, err, not_found}
use merkle_proof_service.Tree.Sparse.{
  SparseMerkleTree, TreeLeafGetterSetter, calculate_hash, get_leaf_from_storage, create_proof,
}
use merkle_proof_service.Tree.Merkle.{IsHash}
use merkle_proof_service.Tree.Batch.{IsBatch}
use merkle_proof_service.Tree.Proofs.{IsProof, create_proof-IsProof}
use merkle_proof_service.Tree.Leaves.{TreeLeaf, insert_leaves}
use merkle_proof_service.Tree.Together.{AreIndexed, assigned}
use merkle_proof_service.Tree.TotalLeaves.{insert_leaves-IsReadable}
use merkle_proof_service.Tree.Fresh.{fresh_tree-IsMerkle, fresh_leaf}
use merkle_proof_service.Tree.History.{Reached, latest, Reached-IsKept, through_new-IsReadable}

-- What `CreateProof` and `InsertLeaves` promise of the tree `u` after a history.
pub record IsServed (poseidon : ℕ → ℕ → Option ℕ) (good : ℕ → Type 0) {B : Type 0}
    (batch : TreeLeafGetterSetter B) (new : B) (empty_leaf : ℕ) (history : List (List TreeLeaf))
    (u : SparseMerkleTree) (done : ℕ → Bool) (index : ℕ) : Type 0 where
  pub proof :
      IsProof
        (calculate_hash poseidon)
        (get_leaf_from_storage poseidon u)
        u.depth
        index
        (create_proof poseidon u done index)
  pub leaf : get_leaf_from_storage poseidon u 0 index ≡ latest history (λ i. ok empty_leaf) index
  pub next :
      (leaves : List TreeLeaf)
      → AreIndexed leaves
      → All (λ leaf. good leaf.value) leaves
      → (b : B) × (insert_leaves poseidon u batch leaves new ≡ ok b)

latest_same :
    (history : List (List TreeLeaf)) (f g : ℕ → Result ℕ) (i : ℕ)
    → f i ≡ g i
    → latest history f i ≡ latest history g i
unfolding latest
latest_same [] f g i h = h
latest_same (leaves ∷ history) f g i h = ap (assigned leaves i) (latest_same history f g i h)

-- For a tree of a depth from 1 to 32 that began with an empty storage, after any calls of
-- `InsertLeaves` with indices that are uint32s, each through a new batch that keeps what is set in it
-- and is written before the next to a storage that keeps it too, with a hash that does not fail on
-- the values of the tree: `CreateProof` of any index of the tree, with a context that is not done,
-- returns a proof that a verifier accepts; the leaf is the last value inserted at the index, or the
-- empty leaf; and the next `InsertLeaves` returns no error.
pub Reached-IsServed :
    (poseidon : ℕ → ℕ → Option ℕ) (good : ℕ → Type 0)
    → IsHash (calculate_hash poseidon) good
    → {B : Type 0} (batch : TreeLeafGetterSetter B) → IsBatch batch
    → (new : B) → ((level i : ℕ) → batch.get_leaf new level i ≡ err not_found)
    → (t : SparseMerkleTree) → 1 ≤ t.depth
    → t.depth ≤ 32
    → ((level i : ℕ) → t.storage_leaf_getter level i ≡ err not_found)
    → good t.empty_leaf
    → (history : List (List TreeLeaf)) (u : SparseMerkleTree)
    → Reached poseidon good batch new t history u
    → (done : ℕ → Bool) → ((level : ℕ) → done level ≡ false)
    → (index : ℕ) → index < 2 ^ t.depth
    → IsServed poseidon good batch new t.empty_leaf history u done index
Reached-IsServed poseidon good hashes batch laws new empty t some_level shallow fresh fine history u
      reached done running index inside =
    let (merkle, readable) =
      fresh_tree-IsMerkle poseidon good hashes t some_level shallow fresh fine in
    let kept =
      Reached-IsKept poseidon good hashes batch laws new empty t shallow merkle readable history u
        reached in
    let shallow' : u.depth ≤ 32 = rw kept.depth_kept shallow in
    let wide : 2 ^ t.depth ≤ 2 ^ 32 = pow-le-pow_right {n = 2} (omega arith) shallow in
    let small : index < 2 ^ 32 = omega arith in
    record {
      proof =
          create_proof-IsProof poseidon u kept.merkle good kept.readable done running index
            (rw kept.depth_kept inside) shallow';
      leaf =
          kept.leaves index small
          ∙ latest_same history (get_leaf_from_storage poseidon t 0) (λ i. ok t.empty_leaf) index
              (fresh_leaf poseidon good hashes t some_level shallow fresh fine index);
      next = λ leaves indexed good_values.
          let (b, e, _) =
            insert_leaves-IsReadable poseidon u batch laws shallow' good hashes new leaves indexed
              good_values
              (through_new-IsReadable poseidon good hashes batch laws new empty u kept.merkle
                kept.readable) in
          (b, e);
    }
