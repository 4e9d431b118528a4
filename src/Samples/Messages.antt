-- ===== src/Samples/Messages.antt =====
-- The messages of the Query service at concrete values.
use merkle_proof_service.Query.Proof
use merkle_proof_service.Query.Proof.{Proof}
use merkle_proof_service.Query.BatchOperation
use merkle_proof_service.Query.BatchOperation.{BatchOperation}
use merkle_proof_service.Query.BatchProof
use merkle_proof_service.Query.BatchProof.{BatchProof}
use merkle_proof_service.Query.QueryProofRequest
use merkle_proof_service.Query.QueryProofRequest.{QueryProofRequest}
use merkle_proof_service.Query.QueryProofResponse
use merkle_proof_service.Query.QueryProofResponse.{QueryProofResponse}
use merkle_proof_service.Query.GetEmptyLeafProofRequest
use merkle_proof_service.Query.GetEmptyLeafProofRequest.{GetEmptyLeafProofRequest}
use merkle_proof_service.Query.GetEmptyLeafProofResponse
use merkle_proof_service.Query.GetEmptyLeafProofResponse.{GetEmptyLeafProofResponse}
use merkle_proof_service.Query.QueryBatchProofsRequest
use merkle_proof_service.Query.QueryBatchProofsRequest.{QueryBatchProofsRequest}
use merkle_proof_service.Query.QueryBatchProofsResponse
use merkle_proof_service.Query.QueryBatchProofsResponse.{QueryBatchProofsResponse}
use merkle_proof_service.Prelude.{◌≡◌, refl, true, none, some, [], ◌∷◌, arith}
use merkle_proof_service.Wire.Binary.{ok, throw, reader_at, uint32, string, bool, fork_join}
use merkle_proof_service.Wire.Loop.{
  write_string, write_uint32, write_bool, write_strings, write_message, write_messages, decode_with,
  on_string, on_uint32, on_bool, on_message,
}
use merkle_proof_service.Message.Fns.{IsFaithful}
use merkle_proof_service.Samples.Concrete.{
  sample_wire, sample_wire-IsLawful, sample_runtime, sample_runtime-IsRuntime, prefixed, split,
  skip_bytes,
}
use merkle_proof_service.Samples.Varint.{put_varint, get_varint}

abbrev proof : Proof
proof = record { leaf = "11"; path = "7" ∷ "9" ∷ []; index = 300; root = "42" }

abbrev batch_operation : BatchOperation
batch_operation = record { leaf_hash = "11"; is_addition = true }

abbrev batch_proof : BatchProof
batch_proof = record { index = 5; path = "7" ∷ [] }

abbrev query_proof_request : QueryProofRequest
query_proof_request = record { registry = "0xab"; leaf = "11" }

abbrev query_proof_response : QueryProofResponse
query_proof_response = record { proof = some proof }

abbrev get_empty_leaf_proof_request : GetEmptyLeafProofRequest
get_empty_leaf_proof_request = record { registry = "0xab" }

abbrev get_empty_leaf_proof_response : GetEmptyLeafProofResponse
get_empty_leaf_proof_response = record { proof = some proof }

abbrev query_batch_proofs_request : QueryBatchProofsRequest
query_batch_proofs_request = record { registry = "0xab"; operations = batch_operation ∷ [] }

abbrev query_batch_proofs_response : QueryBatchProofsResponse
query_batch_proofs_response = record {
  initial_root = "42";
  proofs = batch_proof ∷ batch_proof ∷ [];
}

-- What evaluation goes through.
runs : Unit {0}
unfolding Proof.encode BatchOperation.encode BatchProof.encode QueryProofRequest.encode
    QueryProofResponse.encode GetEmptyLeafProofRequest.encode GetEmptyLeafProofResponse.encode
    QueryBatchProofsRequest.encode QueryBatchProofsResponse.encode Proof.decode write_string
    write_uint32 write_bool write_strings write_message write_messages uint32 string bool fork_join
    decode_with on_string on_uint32 on_bool on_message prefixed split skip_bytes put_varint
    get_varint
runs = tt

-- The bytes of a request, as any protobuf encoder writes them.
encode_request :
    QueryProofRequest.encode sample_wire query_proof_request []
    ≡ 10 ∷ 4 ∷ 48 ∷ 120 ∷ 97 ∷ 98 ∷ 18 ∷ 2 ∷ 49 ∷ 49 ∷ []
unfolding runs
encode_request = refl

-- An unknown field is skipped, and a field of another wire type too.
decode_unknown :
    Proof.decode sample_wire (reader_at 0 (24 ∷ 7 ∷ 42 ∷ 1 ∷ 65 ∷ 8 ∷ 1 ∷ [])) none
    ≡ ok (record { leaf = ""; path = []; index = 7; root = "" }, reader_at 7 [])
unfolding runs
decode_unknown = refl

-- A length that passes the end of the buffer throws.
decode_short : Proof.decode sample_wire (reader_at 0 (10 ∷ 9 ∷ 65 ∷ [])) none ≡ throw
unfolding runs
decode_short = refl

Proof-IsFaithful_example : IsFaithful (Proof.fns sample_wire sample_runtime) Proof.embed proof
unfolding runs
Proof-IsFaithful_example =
    Proof.Laws.Proof-IsFaithful sample_wire sample_wire-IsLawful sample_runtime
      sample_runtime-IsRuntime proof (omega arith)

BatchOperation-IsFaithful_example :
    IsFaithful (BatchOperation.fns sample_wire sample_runtime) BatchOperation.embed batch_operation
BatchOperation-IsFaithful_example =
    BatchOperation.Laws.BatchOperation-IsFaithful sample_wire sample_wire-IsLawful sample_runtime
      sample_runtime-IsRuntime batch_operation

BatchProof-IsFaithful_example :
    IsFaithful (BatchProof.fns sample_wire sample_runtime) BatchProof.embed batch_proof
unfolding runs
BatchProof-IsFaithful_example =
    BatchProof.Laws.BatchProof-IsFaithful sample_wire sample_wire-IsLawful sample_runtime
      sample_runtime-IsRuntime batch_proof (omega arith)

QueryProofRequest-IsFaithful_example :
    IsFaithful
      (QueryProofRequest.fns sample_wire sample_runtime)
      QueryProofRequest.embed
      query_proof_request
QueryProofRequest-IsFaithful_example =
    QueryProofRequest.Laws.QueryProofRequest-IsFaithful sample_wire sample_wire-IsLawful
      sample_runtime sample_runtime-IsRuntime query_proof_request

QueryProofResponse-IsFaithful_example :
    IsFaithful
      (QueryProofResponse.fns sample_wire sample_runtime)
      QueryProofResponse.embed
      query_proof_response
unfolding runs
QueryProofResponse-IsFaithful_example =
    QueryProofResponse.Laws.QueryProofResponse-IsFaithful sample_wire sample_wire-IsLawful
      sample_runtime sample_runtime-IsRuntime query_proof_response (omega arith)

GetEmptyLeafProofRequest-IsFaithful_example :
    IsFaithful
      (GetEmptyLeafProofRequest.fns sample_wire sample_runtime)
      GetEmptyLeafProofRequest.embed
      get_empty_leaf_proof_request
GetEmptyLeafProofRequest-IsFaithful_example =
    GetEmptyLeafProofRequest.Laws.GetEmptyLeafProofRequest-IsFaithful sample_wire
      sample_wire-IsLawful sample_runtime sample_runtime-IsRuntime get_empty_leaf_proof_request

GetEmptyLeafProofResponse-IsFaithful_example :
    IsFaithful
      (GetEmptyLeafProofResponse.fns sample_wire sample_runtime)
      GetEmptyLeafProofResponse.embed
      get_empty_leaf_proof_response
unfolding runs
GetEmptyLeafProofResponse-IsFaithful_example =
    GetEmptyLeafProofResponse.Laws.GetEmptyLeafProofResponse-IsFaithful sample_wire
      sample_wire-IsLawful sample_runtime sample_runtime-IsRuntime get_empty_leaf_proof_response
      (omega arith)

QueryBatchProofsRequest-IsFaithful_example :
    IsFaithful
      (QueryBatchProofsRequest.fns sample_wire sample_runtime)
      QueryBatchProofsRequest.embed
      query_batch_proofs_request
unfolding runs
QueryBatchProofsRequest-IsFaithful_example =
    QueryBatchProofsRequest.Laws.QueryBatchProofsRequest-IsFaithful sample_wire sample_wire-IsLawful
      sample_runtime sample_runtime-IsRuntime query_batch_proofs_request (omega arith)

QueryBatchProofsResponse-IsFaithful_example :
    IsFaithful
      (QueryBatchProofsResponse.fns sample_wire sample_runtime)
      QueryBatchProofsResponse.embed
      query_batch_proofs_response
unfolding runs
QueryBatchProofsResponse-IsFaithful_example =
    QueryBatchProofsResponse.Laws.QueryBatchProofsResponse-IsFaithful sample_wire
      sample_wire-IsLawful sample_runtime sample_runtime-IsRuntime query_batch_proofs_response
      (omega arith)
