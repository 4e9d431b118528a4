-- ===== src/Query/Ends.antt =====
-- The functions `decode` of gen/ts/galactica/merkle/query.ts, on any input.
use merkle_proof_service.Query.Proof
use merkle_proof_service.Query.BatchOperation
use merkle_proof_service.Query.BatchProof
use merkle_proof_service.Query.QueryProofRequest
use merkle_proof_service.Query.QueryProofResponse
use merkle_proof_service.Query.GetEmptyLeafProofRequest
use merkle_proof_service.Query.GetEmptyLeafProofResponse
use merkle_proof_service.Query.QueryBatchProofsRequest
use merkle_proof_service.Query.QueryBatchProofsResponse
use merkle_proof_service.Prelude.{ℕ, ◌≤◌, Option, length}
use merkle_proof_service.Wire.Binary.{Wire, IsLawful, Reader}
use merkle_proof_service.Wire.Ends.{Ended}
use merkle_proof_service.Json.Value.{any_runtime}

-- Over a lawful wire, `decode` of each of the nine messages of the Query service ends on every
-- reader and every length, so also on bytes that no encoder wrote: it throws, or returns a message
-- with no more bytes left than it was given.
pub query-decode_ends :
    (w : Wire)
    → IsLawful w
    → (r : Reader) (n : Option ℕ)
    → Ended (λ k. k ≤ length r.rest) (Proof.decode w r n)
      × Ended (λ k. k ≤ length r.rest) (BatchOperation.decode w r n)
      × Ended (λ k. k ≤ length r.rest) (BatchProof.decode w r n)
      × Ended (λ k. k ≤ length r.rest) (QueryProofRequest.decode w r n)
      × Ended (λ k. k ≤ length r.rest) (QueryProofResponse.decode w r n)
      × Ended (λ k. k ≤ length r.rest) (GetEmptyLeafProofRequest.decode w r n)
      × Ended (λ k. k ≤ length r.rest) (GetEmptyLeafProofResponse.decode w r n)
      × Ended (λ k. k ≤ length r.rest) (QueryBatchProofsRequest.decode w r n)
      × Ended (λ k. k ≤ length r.rest) (QueryBatchProofsResponse.decode w r n)
query-decode_ends w L r n = (
  (Proof.Laws.Proof-Message w L any_runtime).ends r n,
  (BatchOperation.Laws.BatchOperation-Message w L any_runtime).ends r n,
  (BatchProof.Laws.BatchProof-Message w L any_runtime).ends r n,
  (QueryProofRequest.Laws.QueryProofRequest-Message w L any_runtime).ends r n,
  (QueryProofResponse.Laws.QueryProofResponse-Message w L any_runtime).ends r n,
  (GetEmptyLeafProofRequest.Laws.GetEmptyLeafProofRequest-Message w L any_runtime).ends r n,
  (GetEmptyLeafProofResponse.Laws.GetEmptyLeafProofResponse-Message w L any_runtime).ends r n,
  (QueryBatchProofsRequest.Laws.QueryBatchProofsRequest-Message w L any_runtime).ends r n,
  (QueryBatchProofsResponse.Laws.QueryBatchProofsResponse-Message w L any_runtime).ends r n,
)
