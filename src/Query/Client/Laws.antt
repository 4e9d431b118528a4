-- ===== src/Query/Client/Laws.antt =====
-- The client against a server that reads requests and writes responses in the same formats.
use merkle_proof_service.Prelude.{String, ◌≡◌, refl, Option, none, []}
use merkle_proof_service.Wire.Binary.{Bytes, Outcome, ok, ◌>>=◌, Wire, IsLawful, Writer, reader_at}
use merkle_proof_service.Wire.Loop.{Decoder}
use merkle_proof_service.Wire.Fields.{Coded}
use merkle_proof_service.Query.QueryProofRequest
use merkle_proof_service.Query.QueryProofRequest.{QueryProofRequest}
use merkle_proof_service.Query.QueryProofResponse
use merkle_proof_service.Query.QueryProofResponse.{QueryProofResponse}
use merkle_proof_service.Query.GetEmptyLeafProofRequest
use merkle_proof_service.Query.GetEmptyLeafProofRequest.{GetEmptyLeafProofRequest}
use merkle_proof_service.Query.GetEmptyLeafProofResponse
use merkle_proof_service.Query.GetEmptyLeafProofResponse.{GetEmptyLeafProofResponse}
use merkle_proof_service.Query.QueryBatchProofsRequest
use merkle_proof_service.Query.QueryBatchProofsRequest.{QueryBatchProofsRequest}
use merkle_proof_service.Query.QueryBatchProofsResponse
use merkle_proof_service.Query.QueryBatchProofsResponse.{QueryBatchProofsResponse}
use merkle_proof_service.Query.Client.{
  Rpc, query_client_impl, proof, get_empty_leaf_proof, get_batch_proofs,
}

-- A method of a server: it decodes the request and encodes its answer.
abbrev pub serve {ℓ κ} :
    {Q : Type ℓ} {A : Type κ} → Decoder Q → (A → Writer → Writer) → (Q → A) → Bytes → Outcome Bytes
serve decode encode answer bytes =
    decode (reader_at 0 bytes) none >>= λ (request, _). ok (encode (answer request) [])

-- What the methods of the server answer.
pub record Answers : Type 0 where
  pub proof : QueryProofRequest → QueryProofResponse
  pub get_empty_leaf_proof : GetEmptyLeafProofRequest → GetEmptyLeafProofResponse
  pub get_batch_proofs : QueryBatchProofsRequest → QueryBatchProofsResponse

-- The transport leads each method of the service to the server's.
pub record IsServed (w : Wire) (rpc : Rpc) (service : String) (answers : Answers) : Type 0 where
  pub proof :
      (bytes : Bytes)
      → rpc.request service "Proof" bytes
        ≡ serve (QueryProofRequest.decode w) (QueryProofResponse.encode w) answers.proof bytes
  pub get_empty_leaf_proof :
      (bytes : Bytes)
      → rpc.request service "GetEmptyLeafProof" bytes
        ≡ serve
            (GetEmptyLeafProofRequest.decode w)
            (GetEmptyLeafProofResponse.encode w)
            answers.get_empty_leaf_proof
            bytes
  pub get_batch_proofs :
      (bytes : Bytes)
      → rpc.request service "GetBatchProofs" bytes
        ≡ serve
            (QueryBatchProofsRequest.decode w)
            (QueryBatchProofsResponse.encode w)
            answers.get_batch_proofs
            bytes

-- One call: a request that is read back gets an answer that is read back.
call-serve {ℓ κ} :
    {Q : Type ℓ} {A : Type κ} (encode_q : Q → Writer → Writer) (decode_q : Decoder Q)
    (encode_a : A → Writer → Writer) (decode_a : Decoder A) (answer : Q → A) (q : Q)
    → Coded encode_q decode_q q
    → Coded encode_a decode_a (answer q)
    → (send : Bytes → Outcome Bytes)
    → ((bytes : Bytes) → send bytes ≡ serve decode_q encode_a answer bytes)
    → (send (encode_q q []) >>= λ bytes. decode_a (reader_at 0 bytes) none >>= λ (a, _). ok a)
      ≡ ok (answer q)
call-serve encode_q decode_q encode_a decode_a answer q cq ca send served =
    rw (served (encode_q q []), cq.appends [], cq.whole, ◌>>=◌) (rw (ca.appends [], ca.whole) refl)

-- Over a lawful wire, a client built with or without a service name, whose transport leads that
-- service to a server with the same formats, gets the server's answer from each method: for every
-- request of `proof` and `get_empty_leaf_proof`, and every request of `get_batch_proofs` whose
-- operations have lengths below 2 ^ 32; the answers must have uint32 indices and nested lengths
-- below 2 ^ 32.
pub QueryClientImpl-serve :
    (w : Wire)
    → IsLawful w
    → (rpc : Rpc) (name : Option String) (answers : Answers)
    → IsServed w rpc (query_client_impl rpc name).service answers
    → (q : QueryProofRequest) → QueryProofResponse.Laws.IsValid w (answers.proof q)
    → (e : GetEmptyLeafProofRequest)
    → GetEmptyLeafProofResponse.Laws.IsValid w (answers.get_empty_leaf_proof e)
    → (b : QueryBatchProofsRequest) → QueryBatchProofsRequest.Laws.IsValid w b
    → QueryBatchProofsResponse.Laws.IsValid w (answers.get_batch_proofs b)
    → (proof w (query_client_impl rpc name) q ≡ ok (answers.proof q))
      × (get_empty_leaf_proof w (query_client_impl rpc name) e
          ≡ ok (answers.get_empty_leaf_proof e))
      × (get_batch_proofs w (query_client_impl rpc name) b ≡ ok (answers.get_batch_proofs b))
unfolding query_client_impl proof get_empty_leaf_proof get_batch_proofs
QueryClientImpl-serve w L rpc name answers served q vq e ve b vb va = (
  call-serve (QueryProofRequest.encode w) (QueryProofRequest.decode w) (QueryProofResponse.encode w)
      (QueryProofResponse.decode w) answers.proof q
      (QueryProofRequest.Laws.QueryProofRequest-Coded w L q tt)
      (QueryProofResponse.Laws.QueryProofResponse-Coded w L (answers.proof q) vq) _ served.proof,
  call-serve (GetEmptyLeafProofRequest.encode w) (GetEmptyLeafProofRequest.decode w)
      (GetEmptyLeafProofResponse.encode w) (GetEmptyLeafProofResponse.decode w)
      answers.get_empty_leaf_proof e
      (GetEmptyLeafProofRequest.Laws.GetEmptyLeafProofRequest-Coded w L e tt)
      (GetEmptyLeafProofResponse.Laws.GetEmptyLeafProofResponse-Coded w L
        (answers.get_empty_leaf_proof e) ve)
      _ served.get_empty_leaf_proof,
  call-serve (QueryBatchProofsRequest.encode w) (QueryBatchProofsRequest.decode w)
      (QueryBatchProofsResponse.encode w) (QueryBatchProofsResponse.decode w)
      answers.get_batch_proofs b
      (QueryBatchProofsRequest.Laws.QueryBatchProofsRequest-Coded w L b vb)
      (QueryBatchProofsResponse.Laws.QueryBatchProofsResponse-Coded w L (answers.get_batch_proofs b)
        va)
      _ served.get_batch_proofs,
)
