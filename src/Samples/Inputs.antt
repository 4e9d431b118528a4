-- ===== src/Samples/Inputs.antt =====
-- Inputs that no encoder wrote: numbers out of range, unknown names and values that are not set.
use merkle_proof_service.Query.Proof
use merkle_proof_service.Query.BatchOperation
use merkle_proof_service.Query.BatchProof
use merkle_proof_service.Query.QueryProofRequest
use merkle_proof_service.Query.QueryProofResponse
use merkle_proof_service.Query.GetEmptyLeafProofRequest
use merkle_proof_service.Query.GetEmptyLeafProofResponse
use merkle_proof_service.Query.QueryBatchProofsRequest
use merkle_proof_service.Query.QueryBatchProofsResponse
use merkle_proof_service.Query.Errors.{from_json-Settles}
use merkle_proof_service.Descriptor.UninterpretedOption
use merkle_proof_service.Descriptor.FeatureSet
use merkle_proof_service.Descriptor.Bounds.{HasSafeNumbers, decode-HasSafeNumbers}
use merkle_proof_service.Descriptor.Members.{HasMembers, from_json-HasMembers}
use merkle_proof_service.Descriptor.Enums.FeatureSetFieldPresence
use merkle_proof_service.Descriptor.Enums.FeatureSetJsonFormat
use merkle_proof_service.Prelude.{pos, negsuc, ◌≡◌, refl, true, none, some, [], ◌∷◌}
use merkle_proof_service.Wire.Binary.{throw, reader_at}
use merkle_proof_service.Wire.Loop.{decode_with}
use merkle_proof_service.Json.Value.{
  Value, null, string, number, array, object, items, fields, find, property, optional_property,
  is_set,
}
use merkle_proof_service.Json.Settles.{Settles}
use merkle_proof_service.Json.Enum.{switch_enum, matches}
use merkle_proof_service.Message.Scalar.{on_scalar, present_of, long_to_number}
use merkle_proof_service.Samples.Concrete.{sample_wire, sample_runtime}
use merkle_proof_service.Samples.Varint.{get_varint}

-- 7 in positiveIntValue, and then 2 ^ 53.
decode-HasSafeNumbers_example :
    HasSafeNumbers (record UninterpretedOption.base { positive_int_value = some 7 })
unfolding UninterpretedOption.decode decode_with on_scalar long_to_number get_varint
decode-HasSafeNumbers_example =
    decode-HasSafeNumbers sample_wire sample_runtime (reader_at 0 (32 ∷ 7 ∷ [])) none
      (record UninterpretedOption.base { positive_int_value = some 7 }) (reader_at 2 []) refl

decode_unsafe :
    UninterpretedOption.decode sample_wire sample_runtime
      (reader_at 0 (32 ∷ 128 ∷ 128 ∷ 128 ∷ 128 ∷ 128 ∷ 128 ∷ 128 ∷ 16 ∷ []))
      none
    ≡ throw
unfolding UninterpretedOption.decode decode_with on_scalar long_to_number get_varint
decode_unsafe = refl

abbrev features : Value
features = object (fields (("fieldPresence", string "EXPLICIT") ∷ ("jsonFormat", number 9) ∷ []))

from_json-HasMembers_example :
    HasMembers
      (record FeatureSet.base { field_presence = some (pos 1); json_format = some (negsuc 0) })
unfolding FeatureSet.from_json present_of property find is_set FeatureSetFieldPresence.from_json
    FeatureSetJsonFormat.from_json switch_enum matches
from_json-HasMembers_example =
    from_json-HasMembers sample_wire sample_runtime features
      (record FeatureSet.base { field_presence = some (pos 1); json_format = some (negsuc 0) }) refl

-- Operations without a gap, and proofs with one.
abbrev batch_values : Value
batch_values = object (
    fields (
      ("operations", array (items (string "12" ∷ [])))
      ∷ ("proofs", array (items (object (fields []) ∷ null ∷ [])))
      ∷ []))

from_json-Settles_example :
    Settles true (Proof.from_json sample_runtime batch_values)
    × Settles true (BatchOperation.from_json sample_runtime batch_values)
    × Settles true (BatchProof.from_json sample_runtime batch_values)
    × Settles true (QueryProofRequest.from_json sample_runtime batch_values)
    × Settles true (QueryProofResponse.from_json sample_runtime batch_values)
    × Settles true (GetEmptyLeafProofRequest.from_json sample_runtime batch_values)
    × Settles true (GetEmptyLeafProofResponse.from_json sample_runtime batch_values)
    × Settles true (QueryBatchProofsRequest.from_json sample_runtime batch_values)
    × (QueryBatchProofsResponse.from_json sample_runtime batch_values ≡ throw)
unfolding is_set find optional_property
from_json-Settles_example = from_json-Settles sample_runtime batch_values
