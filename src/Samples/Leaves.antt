-- ===== src/Samples/Leaves.antt =====
-- Insertions of several leaves into the empty tree of depth 2: a run, and instances of the theorems.
use merkle_proof_service.Prelude.{
  ℕ, ◌+◌, ◌*◌, ◌^◌, ◌<◌, ◌≡◌, refl, true, false, List, [], ◌∷◌, arith,
}
use merkle_proof_service.Tree.Result.{ok, err, not_found}
use merkle_proof_service.Tree.Sparse.{
  calculate_hash, branch_hashes, calculate_empty_branch_hashes, get_empty_branch_value, or_empty,
  get_leaf_from_storage, or_storage, get_leaf_from_batch_or_storage, get_sibling_nodes,
  calculate_hash_for_node,
}
use merkle_proof_service.Tree.Merkle.{IsMerkle, IsReadable}
use merkle_proof_service.Tree.Buffer.{
  BatchWithLeavesBuffer, make_leaf_key, put_uint32, key_eq, lookup, set_leaf, get_leaf,
}
use merkle_proof_service.Tree.Leaves.{
  TreeLeaf, member, set_leaves, level_loop, levels_loop, insert_leaves, pure_loop,
}
use merkle_proof_service.Tree.InPlace.{level_loop-pure_loop}
use merkle_proof_service.Tree.Together.{AreIndexed, assigned}
use merkle_proof_service.Tree.InsertLeaves.{insert_leaves-IsMerkle}
use merkle_proof_service.Tree.TotalLeaves.{insert_leaves-IsReadable}
use merkle_proof_service.Tree.Written.{written_tree}
use merkle_proof_service.Tree.History.{Reached, start, insertion}
use merkle_proof_service.Tree.Served.{IsServed, Reached-IsServed}
use merkle_proof_service.Tree.Random.{
  max_leaves, or_again, random_index, random_rounds, get_random_empty_leaf_index,
  get_random_empty_leaf_index-IsEmpty,
}
use merkle_proof_service.Samples.Tree.{
  sample_poseidon, Small, sample_poseidon-IsHash, sample_tree, sample_batch, sample_batch-IsBatch,
  empty_buffer, through_empty-IsMerkle, through_empty-IsReadable,
}

abbrev three_leaves : List TreeLeaf
three_leaves =
    record { index = 3; value = 8 }
    ∷ record { index = 2; value = 9 }
    ∷ record { index = 3; value = 5 }
    ∷ []

abbrev buffer_of_leaves : BatchWithLeavesBuffer ℕ
buffer_of_leaves = record {
  batch = 5;
  index = 3;
  buffer =
      ((1 ∷ 3 ∷ 2 ∷ 0 ∷ 0 ∷ 0 ∷ 0 ∷ []), 437)
      ∷ ((1 ∷ 3 ∷ 1 ∷ 0 ∷ 0 ∷ 0 ∷ 1 ∷ []), 53)
      ∷ ((1 ∷ 3 ∷ 0 ∷ 0 ∷ 0 ∷ 0 ∷ 3 ∷ []), 5)
      ∷ ((1 ∷ 3 ∷ 0 ∷ 0 ∷ 0 ∷ 0 ∷ 2 ∷ []), 9)
      ∷ ((1 ∷ 3 ∷ 0 ∷ 0 ∷ 0 ∷ 0 ∷ 3 ∷ []), 8)
      ∷ [];
}

-- One hash for each level: the leaves have one parent.
insertion_of_leaves :
    insert_leaves sample_poseidon sample_tree sample_batch three_leaves empty_buffer
    ≡ ok buffer_of_leaves
unfolding insert_leaves set_leaves levels_loop level_loop member calculate_hash_for_node
    get_sibling_nodes get_leaf_from_batch_or_storage or_storage set_leaf get_leaf make_leaf_key
    put_uint32 lookup key_eq get_leaf_from_storage or_empty get_empty_branch_value
    calculate_empty_branch_hashes branch_hashes calculate_hash
insertion_of_leaves = refl

three_leaves-AreIndexed : AreIndexed three_leaves
three_leaves-AreIndexed = (omega arith, (omega arith, (omega arith, tt)))

insert_leaves-IsMerkle_example :
    IsMerkle
      (calculate_hash sample_poseidon)
      (get_leaf_from_batch_or_storage sample_poseidon sample_tree sample_batch buffer_of_leaves)
      2
    × ((i : ℕ)
        → i < 2 ^ 32
        → get_leaf_from_batch_or_storage sample_poseidon sample_tree sample_batch buffer_of_leaves 0
            i
          ≡ assigned three_leaves i (
              get_leaf_from_batch_or_storage sample_poseidon sample_tree sample_batch empty_buffer 0
                i))
insert_leaves-IsMerkle_example =
    insert_leaves-IsMerkle sample_poseidon sample_tree sample_batch sample_batch-IsBatch
      (omega arith) empty_buffer buffer_of_leaves three_leaves three_leaves-AreIndexed
      through_empty-IsMerkle insertion_of_leaves

insert_leaves-IsReadable_example :
    (b : BatchWithLeavesBuffer ℕ) × (insert_leaves sample_poseidon sample_tree sample_batch
        three_leaves empty_buffer
      ≡ ok b)
    × IsReadable Small (get_leaf_from_batch_or_storage sample_poseidon sample_tree sample_batch b) 2
insert_leaves-IsReadable_example =
    insert_leaves-IsReadable sample_poseidon sample_tree sample_batch sample_batch-IsBatch
      (omega arith) Small sample_poseidon-IsHash empty_buffer three_leaves three_leaves-AreIndexed
      (omega arith, (omega arith, (omega arith, tt))) through_empty-IsReadable

level_loop-pure_loop_example :
    level_loop sample_poseidon sample_tree sample_batch true 0 3 0 three_leaves [] [] empty_buffer
    ≡ pure_loop sample_poseidon sample_tree sample_batch 0 three_leaves [] [] empty_buffer
level_loop-pure_loop_example =
    level_loop-pure_loop sample_poseidon sample_tree sample_batch true 0 3 0 three_leaves [] []
      empty_buffer refl (omega arith)

empty_buffer_empty : (level i : ℕ) → sample_batch.get_leaf empty_buffer level i ≡ err not_found
unfolding get_leaf lookup
empty_buffer_empty level i = refl

one_insertion :
    Reached sample_poseidon Small sample_batch empty_buffer sample_tree
      (three_leaves ∷ [])
      (written_tree sample_tree sample_batch buffer_of_leaves)
one_insertion =
    insertion three_leaves buffer_of_leaves
      ((written_tree sample_tree sample_batch buffer_of_leaves).storage_leaf_getter) start
      three_leaves-AreIndexed (omega arith, (omega arith, (omega arith, tt))) insertion_of_leaves
      (λ level i. refl)

Reached-IsServed_example :
    IsServed sample_poseidon Small sample_batch empty_buffer 7
      (three_leaves ∷ [])
      (written_tree sample_tree sample_batch buffer_of_leaves)
      (λ level. false)
      3
Reached-IsServed_example =
    Reached-IsServed sample_poseidon Small sample_poseidon-IsHash sample_batch sample_batch-IsBatch
      empty_buffer empty_buffer_empty sample_tree (omega arith) (omega arith) (λ level i. refl)
      (omega arith) (three_leaves ∷ []) (written_tree sample_tree sample_batch buffer_of_leaves)
      one_insertion (λ level. false) (λ level. refl) 3 (omega arith)

-- 1, 4, 7, … modulo 4
abbrev sample_rand : ℕ → ℕ
sample_rand n = 3 * n + 1

empty_index : get_random_empty_leaf_index sample_tree (λ round. false) sample_rand ≡ ok 1
unfolding get_random_empty_leaf_index random_rounds or_again max_leaves
empty_index = refl

get_random_empty_leaf_index-IsEmpty_example :
    ((i : ℕ)
      → get_random_empty_leaf_index sample_tree (λ round. false) sample_rand ≡ ok i
      → (i < 2 ^ 2) × (sample_tree.storage_leaf_getter 0 i ≡ err not_found))
    × ((n : ℕ)
        → n < 10
        → ((round : ℕ) → false ≡ false)
        → sample_tree.storage_leaf_getter 0
            (random_index sample_tree (λ round. false) sample_rand n)
          ≡ err not_found
        → (i : ℕ) × (get_random_empty_leaf_index sample_tree (λ round. false) sample_rand ≡ ok i))
get_random_empty_leaf_index-IsEmpty_example =
    get_random_empty_leaf_index-IsEmpty sample_tree (omega arith) (λ round. false) sample_rand
