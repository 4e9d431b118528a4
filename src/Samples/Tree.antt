-- ===== src/Samples/Tree.antt =====
-- A tree of depth 2 over a hash of numbers, an empty storage, and a batch over a counter of writes:
-- runs, and instances of the theorems about the tree.
use merkle_proof_service.Prelude.{
  ℕ, suc, ◌+◌, ◌*◌, ◌%◌, ◌^◌, ◌<◌, ◌≡◌, ◌≢◌, refl, true, false, Option, some, [], ◌∷◌, arith,
  lt→ltb,
}
use merkle_proof_service.Tree.Result.{Result, ok, err, not_found, cancelled}
use merkle_proof_service.Tree.Sparse.{
  SparseMerkleTree, TreeLeafGetterSetter, calculate_hash, branch_hashes,
  calculate_empty_branch_hashes, get_empty_branch_value, or_empty, get_leaf_from_storage, get_root,
  proof_path, create_proof, or_storage, get_leaf_from_batch_or_storage, get_sibling_nodes,
  calculate_hash_for_node, insert_levels, insert_leaf,
}
use merkle_proof_service.Tree.Merkle.{IsMerkle, IsHash, IsReadable}
use merkle_proof_service.Tree.Proofs.{IsProof, create_proof-IsProof}
use merkle_proof_service.Tree.Batch.{IsBatch}
use merkle_proof_service.Tree.Insert.{insert_leaf-IsMerkle}
use merkle_proof_service.Tree.Total.{insert_leaf-IsReadable}
use merkle_proof_service.Tree.Buffer.{
  Bytes, BatchWithLeavesBuffer, make_leaf_key, put_uint32, key_eq, lookup, set_leaf, get_leaf,
  leaves_buffer, leaves_buffer-IsBatch,
}
use merkle_proof_service.Tree.Fresh.{fresh_tree-IsMerkle}

abbrev pub sample_poseidon : ℕ → ℕ → Option ℕ
sample_poseidon a b = some ((3 * a + 5 * b + 1) % 1000)

abbrev pub Small : ℕ → Type 0
Small v = v < 1000

pub sample_poseidon-IsHash : IsHash (calculate_hash sample_poseidon) Small
unfolding calculate_hash
sample_poseidon-IsHash a b p q = (
  (3 * a + 5 * b + 1) % 1000,
  rw (lt→ltb ((3 * a + 5 * b + 1) % 1000) (2 ^ 256) (omega arith)) refl,
  omega arith,
)

abbrev pub sample_tree : SparseMerkleTree
sample_tree = record {
  empty_leaf = 7;
  depth = 2;
  storage_leaf_getter = λ level index. err not_found;
}

abbrev pub sample_set : ℕ → Bytes → Bytes → Result ℕ
sample_set n key value = ok (suc n)

abbrev pub sample_bytes : ℕ → Bytes
sample_bytes n = n ∷ []

abbrev pub sample_batch : TreeLeafGetterSetter (BatchWithLeavesBuffer ℕ)
sample_batch = leaves_buffer sample_set sample_bytes

abbrev pub empty_buffer : BatchWithLeavesBuffer ℕ
empty_buffer = record { batch = 0; index = 3; buffer = [] }

-- The empty tree is 7 at level 0, 3 * 7 + 5 * 7 + 1 = 57 at level 1, and 457 at the root.
proof_of_sample_tree :
    create_proof sample_poseidon sample_tree (λ level. false) 2
    ≡ ok (record { leaf = 7; path = 7 ∷ 57 ∷ []; index = 2; root = 457 })
unfolding create_proof get_root proof_path get_leaf_from_storage or_empty get_empty_branch_value
    calculate_empty_branch_hashes branch_hashes calculate_hash
proof_of_sample_tree = refl

cancelled_proof : create_proof sample_poseidon sample_tree (λ level. true) 2 ≡ err cancelled
unfolding create_proof get_root proof_path get_leaf_from_storage or_empty get_empty_branch_value
    calculate_empty_branch_hashes branch_hashes calculate_hash
cancelled_proof = refl

abbrev buffer_of_leaf : BatchWithLeavesBuffer ℕ
buffer_of_leaf = record {
  batch = 3;
  index = 3;
  buffer =
      ((1 ∷ 3 ∷ 2 ∷ 0 ∷ 0 ∷ 0 ∷ 0 ∷ []), 482)
      ∷ ((1 ∷ 3 ∷ 1 ∷ 0 ∷ 0 ∷ 0 ∷ 1 ∷ []), 62)
      ∷ ((1 ∷ 3 ∷ 0 ∷ 0 ∷ 0 ∷ 0 ∷ 3 ∷ []), 8)
      ∷ [];
}

-- Leaf 3 becomes 8, its parent 3 * 7 + 5 * 8 + 1 = 62, and the root 3 * 57 + 5 * 62 + 1 = 482.
insertion_of_leaf :
    insert_leaf sample_poseidon sample_tree sample_batch empty_buffer 3 8 ≡ ok buffer_of_leaf
unfolding insert_leaf insert_levels calculate_hash_for_node get_sibling_nodes
    get_leaf_from_batch_or_storage or_storage set_leaf get_leaf make_leaf_key put_uint32 lookup
    key_eq get_leaf_from_storage or_empty get_empty_branch_value calculate_empty_branch_hashes
    branch_hashes calculate_hash
insertion_of_leaf = refl

pub sample_batch-IsBatch : IsBatch sample_batch
sample_batch-IsBatch = leaves_buffer-IsBatch sample_set sample_bytes (λ d k v. (suc d, refl))

fresh_tree-IsMerkle_example :
    IsMerkle (calculate_hash sample_poseidon) (get_leaf_from_storage sample_poseidon sample_tree) 2
    × IsReadable Small (get_leaf_from_storage sample_poseidon sample_tree) 2
fresh_tree-IsMerkle_example =
    fresh_tree-IsMerkle sample_poseidon Small sample_poseidon-IsHash sample_tree (omega arith)
      (omega arith) (λ level i. refl) (omega arith)

leaves_buffer-IsBatch_example : IsBatch (leaves_buffer sample_set sample_bytes)
leaves_buffer-IsBatch_example =
    leaves_buffer-IsBatch sample_set sample_bytes (λ d k v. (suc d, refl))

pub sample_tree-both :
    IsMerkle (calculate_hash sample_poseidon) (get_leaf_from_storage sample_poseidon sample_tree) 2
    × IsReadable Small (get_leaf_from_storage sample_poseidon sample_tree) 2
sample_tree-both =
    fresh_tree-IsMerkle sample_poseidon Small sample_poseidon-IsHash sample_tree (omega arith)
      (omega arith) (λ level i. refl) (omega arith)

create_proof-IsProof_example :
    IsProof
      (calculate_hash sample_poseidon)
      (get_leaf_from_storage sample_poseidon sample_tree)
      2
      3
      (create_proof sample_poseidon sample_tree (λ level. false) 3)
create_proof-IsProof_example =
    create_proof-IsProof sample_poseidon sample_tree sample_tree-both.0 Small sample_tree-both.1
      (λ level. false) (λ level. refl) 3 (omega arith) (omega arith)

-- Through an empty batch the tree is the storage's.
pub through_empty-IsMerkle :
    IsMerkle
      (calculate_hash sample_poseidon)
      (get_leaf_from_batch_or_storage sample_poseidon sample_tree sample_batch empty_buffer)
      2
unfolding get_leaf_from_batch_or_storage or_storage get_leaf lookup
through_empty-IsMerkle l i p q = sample_tree-both.0 l i p q

pub through_empty-IsReadable :
    IsReadable Small
      (get_leaf_from_batch_or_storage sample_poseidon sample_tree sample_batch empty_buffer)
      2
unfolding get_leaf_from_batch_or_storage or_storage get_leaf lookup
through_empty-IsReadable l i p q = sample_tree-both.1 l i p q

insert_leaf-IsMerkle_example :
    IsMerkle
      (calculate_hash sample_poseidon)
      (get_leaf_from_batch_or_storage sample_poseidon sample_tree sample_batch buffer_of_leaf)
      2
    × (get_leaf_from_batch_or_storage sample_poseidon sample_tree sample_batch buffer_of_leaf 0 3
        ≡ ok 8)
    × ((i : ℕ)
        → i < 2 ^ 32
        → 3 ≢ i
        → get_leaf_from_batch_or_storage sample_poseidon sample_tree sample_batch buffer_of_leaf 0 i
          ≡ get_leaf_from_batch_or_storage sample_poseidon sample_tree sample_batch empty_buffer 0
              i)
insert_leaf-IsMerkle_example =
    insert_leaf-IsMerkle sample_poseidon sample_tree sample_batch sample_batch-IsBatch (omega arith)
      empty_buffer buffer_of_leaf 3 8 (omega arith) through_empty-IsMerkle insertion_of_leaf

insert_leaf-IsReadable_example :
    (b : BatchWithLeavesBuffer ℕ) × (insert_leaf sample_poseidon sample_tree sample_batch
        empty_buffer 3 8
      ≡ ok b)
    × IsReadable Small (get_leaf_from_batch_or_storage sample_poseidon sample_tree sample_batch b) 2
insert_leaf-IsReadable_example =
    insert_leaf-IsReadable sample_poseidon sample_tree sample_batch sample_batch-IsBatch
      (omega arith) Small sample_poseidon-IsHash empty_buffer 3 8 (omega arith) (omega arith)
      through_empty-IsReadable
