-- ===== src/Query/Client.antt =====
-- class QueryClientImpl of gen/ts/galactica/merkle/query.ts. A promise that rejects is `throw`.
pub mod Laws
use text.Mathlib.Text.{◌==◌ as str_eq}
use merkle_proof_service.Prelude.{String, Option, none, some, [], if◌then◌else◌}
use merkle_proof_service.Wire.Binary.{Bytes, Outcome, ok, ◌>>=◌, Wire, Writer, reader_at}
use merkle_proof_service.Wire.Loop.{Decoder}
use merkle_proof_service.Query.QueryProofRequest
use merkle_proof_service.Query.QueryProofRequest.{QueryProofRequest}
use merkle_proof_service.Query.QueryProofResponse
use merkle_proof_service.Query.QueryProofResponse.{QueryProofResponse}
use merkle_proof_service.Query.GetEmptyLeafProofRequest
use merkle_proof_service.Query.GetEmptyLeafProofRequest.{GetEmptyLeafProofRequest}
use merkle_proof_service.Query.GetEmptyLeafProofResponse
use merkle_proof_service.Query.GetEmptyLeafProofResponse.{GetEmptyLeafProofResponse}
use merkle_proof_service.Query.QueryBatchProofsRequest
use merkle_proof_service.Query.QueryBatchProofsRequest.{QueryBatchProofsRequest}
use merkle_proof_service.Query.QueryBatchProofsResponse
use merkle_proof_service.Query.QueryBatchProofsResponse.{QueryBatchProofsResponse}

-- interface Rpc: request(service, method, data)
pub record Rpc : Type 0 where
  pub request : String → String → Bytes → Outcome Bytes

pub record QueryClientImpl : Type 0 where
  pub rpc : Rpc
  pub service : String

abbrev pub query_service_name : String
query_service_name = "galactica.merkle.Query"

-- opts?.service || QueryServiceName
abbrev service_of : Option String → String
service_of none = query_service_name
service_of (some s) = if str_eq s "" then query_service_name else s

-- constructor(rpc, opts?)
unfoldable pub query_client_impl : Rpc → Option String → QueryClientImpl
query_client_impl rpc service = record { rpc = rpc; service = service_of service }

module _ (w : Wire) (client : QueryClientImpl) where
  unfoldable pub proof : QueryProofRequest → Outcome QueryProofResponse
  proof request =
      client.rpc.request client.service "Proof" (QueryProofRequest.encode w request []) >>= λ bytes.
      QueryProofResponse.decode w (reader_at 0 bytes) none >>= λ (response, _). ok response

  unfoldable pub get_empty_leaf_proof : GetEmptyLeafProofRequest → Outcome GetEmptyLeafProofResponse
  get_empty_leaf_proof request =
      client.rpc.request client.service "GetEmptyLeafProof"
        (GetEmptyLeafProofRequest.encode w request [])
      >>= λ bytes. GetEmptyLeafProofResponse.decode w (reader_at 0 bytes) none >>= λ (response, _).
          ok response

  unfoldable pub get_batch_proofs : QueryBatchProofsRequest → Outcome QueryBatchProofsResponse
  get_batch_proofs request =
      client.rpc.request client.service "GetBatchProofs"
        (QueryBatchProofsRequest.encode w request [])
      >>= λ bytes. QueryBatchProofsResponse.decode w (reader_at 0 bytes) none >>= λ (response, _).
          ok response
