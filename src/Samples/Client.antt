-- ===== src/Samples/Client.antt =====
-- The client against a server of constant answers, and `decode` on broken bytes.
use text.Mathlib.Text.{◌==◌ as str_eq}
use merkle_proof_service.Query.Proof
use merkle_proof_service.Query.Proof.{Proof}
use merkle_proof_service.Query.BatchOperation
use merkle_proof_service.Query.BatchOperation.{BatchOperation}
use merkle_proof_service.Query.BatchProof
use merkle_proof_service.Query.BatchProof.{BatchProof}
use merkle_proof_service.Query.QueryProofRequest
use merkle_proof_service.Query.QueryProofRequest.{QueryProofRequest}
use merkle_proof_service.Query.QueryProofResponse
use merkle_proof_service.Query.QueryProofResponse.{QueryProofResponse}
use merkle_proof_service.Query.GetEmptyLeafProofRequest
use merkle_proof_service.Query.GetEmptyLeafProofRequest.{GetEmptyLeafProofRequest}
use merkle_proof_service.Query.GetEmptyLeafProofResponse
use merkle_proof_service.Query.GetEmptyLeafProofResponse.{GetEmptyLeafProofResponse}
use merkle_proof_service.Query.QueryBatchProofsRequest
use merkle_proof_service.Query.QueryBatchProofsRequest.{QueryBatchProofsRequest}
use merkle_proof_service.Query.QueryBatchProofsResponse
use merkle_proof_service.Query.QueryBatchProofsResponse.{QueryBatchProofsResponse}
use merkle_proof_service.Prelude.{
  ℕ, ◌≤◌, ◌≡◌, refl, none, some, List, [], ◌∷◌, arith, if◌then◌else◌, length,
}
use merkle_proof_service.Wire.Binary.{ok, reader_at, uint32, string}
use merkle_proof_service.Wire.Loop.{write_string, write_uint32, write_strings}
use merkle_proof_service.Wire.Ends.{Ended}
use merkle_proof_service.Samples.Concrete.{sample_wire, sample_wire-IsLawful, prefixed}
use merkle_proof_service.Samples.Varint.{put_varint}
use merkle_proof_service.Query.Client.{
  Rpc, query_client_impl, proof, get_empty_leaf_proof, get_batch_proofs,
}
use merkle_proof_service.Query.Client.Laws.{serve, Answers, QueryClientImpl-serve}
use merkle_proof_service.Query.Ends.{query-decode_ends}

abbrev answers : Answers
answers = record {
  proof = λ q. record { proof = none };
  get_empty_leaf_proof =
      λ e. record { proof = some (record { leaf = e.registry; path = []; index = 9; root = "4" }) };
  get_batch_proofs = λ b. record { initial_root = b.registry; proofs = [] };
}

-- A transport that leads every service to the server.
abbrev rpc : Rpc
rpc = record {
  request = λ service method bytes.
      if str_eq method "Proof"
      then serve (QueryProofRequest.decode sample_wire) (QueryProofResponse.encode sample_wire)
          answers.proof bytes
      else if str_eq method "GetEmptyLeafProof"
      then serve (GetEmptyLeafProofRequest.decode sample_wire)
          (GetEmptyLeafProofResponse.encode sample_wire) answers.get_empty_leaf_proof bytes
      else serve (QueryBatchProofsRequest.decode sample_wire)
          (QueryBatchProofsResponse.encode sample_wire) answers.get_batch_proofs bytes;
}

runs : Unit {0}
unfolding query_client_impl proof get_empty_leaf_proof get_batch_proofs Proof.encode write_string
    write_uint32 write_strings uint32 string prefixed put_varint
runs = tt

abbrev request : QueryProofRequest
request = record { registry = "0xab"; leaf = "11" }

abbrev empty_request : GetEmptyLeafProofRequest
empty_request = record { registry = "0xab" }

abbrev batch_request : QueryBatchProofsRequest
batch_request = record { registry = "0xab"; operations = [] }

QueryClientImpl-serve_example :
    (proof sample_wire (query_client_impl rpc none) request ≡ ok (answers.proof request))
    × (get_empty_leaf_proof sample_wire (query_client_impl rpc none) empty_request
        ≡ ok (answers.get_empty_leaf_proof empty_request))
    × (get_batch_proofs sample_wire (query_client_impl rpc none) batch_request
        ≡ ok (answers.get_batch_proofs batch_request))
unfolding runs
QueryClientImpl-serve_example =
    QueryClientImpl-serve sample_wire sample_wire-IsLawful rpc none answers
      (record { proof = λ b. refl; get_empty_leaf_proof = λ b. refl; get_batch_proofs = λ b. refl })
      request tt empty_request (omega arith) batch_request tt tt

abbrev bytes : List ℕ
bytes = 10 ∷ 200 ∷ 3 ∷ []

query-decode_ends_example :
    Ended (λ k. k ≤ length bytes) (Proof.decode sample_wire (reader_at 0 bytes) none)
    × Ended (λ k. k ≤ length bytes) (BatchOperation.decode sample_wire (reader_at 0 bytes) none)
    × Ended (λ k. k ≤ length bytes) (BatchProof.decode sample_wire (reader_at 0 bytes) none)
    × Ended (λ k. k ≤ length bytes) (QueryProofRequest.decode sample_wire (reader_at 0 bytes) none)
    × Ended (λ k. k ≤ length bytes) (QueryProofResponse.decode sample_wire (reader_at 0 bytes) none)
    × Ended
        (λ k. k ≤ length bytes)
        (GetEmptyLeafProofRequest.decode sample_wire (reader_at 0 bytes) none)
    × Ended
        (λ k. k ≤ length bytes)
        (GetEmptyLeafProofResponse.decode sample_wire (reader_at 0 bytes) none)
    × Ended
        (λ k. k ≤ length bytes)
        (QueryBatchProofsRequest.decode sample_wire (reader_at 0 bytes) none)
    × Ended
        (λ k. k ≤ length bytes)
        (QueryBatchProofsResponse.decode sample_wire (reader_at 0 bytes) none)
query-decode_ends_example =
    query-decode_ends sample_wire sample_wire-IsLawful (reader_at 0 bytes) none
