-- ===== src/Query/Errors.antt =====
-- Which values `fromJSON` of the messages of gen/ts/galactica/merkle/query.ts reads, and on which it
-- throws.
use merkle_proof_service.Query.Proof
use merkle_proof_service.Query.BatchOperation
use merkle_proof_service.Query.BatchProof
use merkle_proof_service.Query.QueryProofRequest
use merkle_proof_service.Query.QueryProofResponse
use merkle_proof_service.Query.GetEmptyLeafProofRequest
use merkle_proof_service.Query.GetEmptyLeafProofResponse
use merkle_proof_service.Query.QueryBatchProofsRequest
use merkle_proof_service.Query.QueryBatchProofsResponse
use merkle_proof_service.Prelude.{refl, Option, ◌&&◌}
use merkle_proof_service.Wire.Binary.{ok, ◌>>=◌}
use merkle_proof_service.Json.Value.{Value, optional_property, is_set, Runtime}
use merkle_proof_service.Json.Convert.{string_of, number_of, flag_of, message_of, messages_of}
use merkle_proof_service.Json.Settles.{
  Settles, has_no_gap, Settles-bind, Settles-then, Settles-both, string_of-Settles,
  number_of-Settles, flag_of-Settles, message_of-Settles, messages_of-Settles,
}

module _ (rt : Runtime) (v : Value) where
  Proof_lem : Settles (is_set v) (Proof.from_json rt v)
  unfolding Proof.from_json
  Proof_lem =
      Settles-both (is_set v) (string_of rt "leaf" v) _ (string_of-Settles rt "leaf" v) λ leaf.
        Settles-both (is_set v) (number_of rt "index" v) _ (number_of-Settles rt "index" v) λ index.
          Settles-then (is_set v) (string_of rt "root" v) _ (string_of-Settles rt "root" v)
            λ root. (_, refl)

  BatchOperation_lem : Settles (is_set v) (BatchOperation.from_json rt v)
  unfolding BatchOperation.from_json
  BatchOperation_lem =
      Settles-both (is_set v) (string_of rt "leafHash" v) _ (string_of-Settles rt "leafHash" v)
        λ leaf_hash.
          Settles-then (is_set v) (flag_of "isAddition" v) _ (flag_of-Settles "isAddition" v)
            λ is_addition. (_, refl)

  BatchProof_lem : Settles (is_set v) (BatchProof.from_json rt v)
  unfolding BatchProof.from_json
  BatchProof_lem =
      Settles-then (is_set v) (number_of rt "index" v) _ (number_of-Settles rt "index" v)
        λ index. (_, refl)

-- A message made of one nested proof.
of_proof :
    (rt : Runtime) (v : Value) {M : Type 0} (f : Option Proof.Proof → M)
    → Settles (is_set v) (message_of (Proof.from_json rt) "proof" v >>= λ m. ok (f m))
of_proof rt v f =
    Settles-then (is_set v) (message_of (Proof.from_json rt) "proof" v) _
      (message_of-Settles (Proof.from_json rt) (Proof_lem rt) "proof" v) λ m. (f m, refl)

-- `fromJSON` of each of the nine messages of the Query service, on any value, where the conversions
-- `globalThis.String` and `globalThis.Number` give a result. It throws on a value that is not set,
-- `undefined` or `null`; QueryBatchProofsRequest and QueryBatchProofsResponse also throw where
-- `operations` or `proofs` is an array with an element that is not set. On every other value, whatever
-- its type and the types of its fields, it gives a message.
pub from_json-Settles :
    (rt : Runtime) (v : Value)
    → Settles (is_set v) (Proof.from_json rt v)
      × Settles (is_set v) (BatchOperation.from_json rt v)
      × Settles (is_set v) (BatchProof.from_json rt v)
      × Settles (is_set v) (QueryProofRequest.from_json rt v)
      × Settles (is_set v) (QueryProofResponse.from_json rt v)
      × Settles (is_set v) (GetEmptyLeafProofRequest.from_json rt v)
      × Settles (is_set v) (GetEmptyLeafProofResponse.from_json rt v)
      × Settles
          (is_set v && has_no_gap (optional_property "operations" v))
          (QueryBatchProofsRequest.from_json rt v)
      × Settles
          (is_set v && has_no_gap (optional_property "proofs" v))
          (QueryBatchProofsResponse.from_json rt v)
unfolding QueryProofRequest.from_json QueryProofResponse.from_json
    GetEmptyLeafProofRequest.from_json GetEmptyLeafProofResponse.from_json
    QueryBatchProofsRequest.from_json QueryBatchProofsResponse.from_json
from_json-Settles rt v = (
  Proof_lem rt v,
  BatchOperation_lem rt v,
  BatchProof_lem rt v,
  Settles-both (is_set v) (string_of rt "registry" v) _ (string_of-Settles rt "registry" v) λ s.
      Settles-then (is_set v) (string_of rt "leaf" v) _ (string_of-Settles rt "leaf" v)
        λ l. (_, refl),
  of_proof rt v _,
  Settles-then (is_set v) (string_of rt "registry" v) _ (string_of-Settles rt "registry" v)
      λ s. (_, refl),
  of_proof rt v _,
  Settles-bind (is_set v) _ (string_of rt "registry" v) _ (string_of-Settles rt "registry" v) λ s.
      Settles-then _ (messages_of (BatchOperation.from_json rt) "operations" v) _
        (messages_of-Settles (BatchOperation.from_json rt) (BatchOperation_lem rt) "operations" v)
        λ ms. (_, refl),
  Settles-bind (is_set v) _ (string_of rt "initialRoot" v) _ (string_of-Settles rt "initialRoot" v)
      λ s.
        Settles-then _ (messages_of (BatchProof.from_json rt) "proofs" v) _
          (messages_of-Settles (BatchProof.from_json rt) (BatchProof_lem rt) "proofs" v)
          λ ms. (_, refl),
)
