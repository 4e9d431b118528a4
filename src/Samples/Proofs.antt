-- ===== src/Samples/Proofs.antt =====
-- Proofs of the sample tree that are cancelled or forged.
use merkle_proof_service.Prelude.{ℕ, ◌≡◌, refl, ◌==◌, ◌⊎◌, [], ◌∷◌, arith}
use merkle_proof_service.Tree.Result.{err, cancelled}
use merkle_proof_service.Tree.Sparse.{
  calculate_hash, branch_hashes, calculate_empty_branch_hashes, get_empty_branch_value, or_empty,
  get_leaf_from_storage, get_root, create_proof,
}
use merkle_proof_service.Tree.Merkle.{root_of}
use merkle_proof_service.Tree.Cancelled.{create_proof-cancelled}
use merkle_proof_service.Tree.Binding.{Collision, root_of_binding}
use merkle_proof_service.Samples.Tree.{sample_poseidon, Small, sample_tree, sample_tree-both}

-- The context is done at the second level.
create_proof-cancelled_example :
    create_proof sample_poseidon sample_tree (λ level. level == 1) 2 ≡ err cancelled
create_proof-cancelled_example =
    create_proof-cancelled sample_poseidon sample_tree Small sample_tree-both.1
      (λ level. level == 1) 1 (omega arith) refl 2 (omega arith) (omega arith)

-- 12 and 4 have the hash of two empty leaves: 3 * 12 + 5 * 4 + 1 = 57.
root_of_binding_example : (◌≡◌ {A = ℕ} 12 7) ⊎ Collision (calculate_hash sample_poseidon)
unfolding get_root get_leaf_from_storage or_empty get_empty_branch_value
    calculate_empty_branch_hashes branch_hashes calculate_hash root_of
root_of_binding_example =
    root_of_binding sample_poseidon sample_tree sample_tree-both.0 Small sample_tree-both.1 0 12 7
      457 (4 ∷ 57 ∷ []) (omega arith) (omega arith) refl refl refl refl
