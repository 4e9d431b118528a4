-- ===== src/Descriptor/Enums/FeatureSetMessageEncoding.antt =====
-- enum FeatureSet_MessageEncoding of gen/ts/google/protobuf/descriptor.ts, with its JSON functions.
use merkle_proof_service.Prelude.{ℕ, String, refl, Option, some, [], ◌∷◌, inl, inr}
use merkle_proof_service.Json.Value.{Value}
use merkle_proof_service.Json.Enum.{
  EnumFns, unnumbered, case_of, matches, switch_enum, ReadsName, ReadsNumber, IsEnum,
  switch_enum-StandsFor,
}

pub data FeatureSetMessageEncoding : Type 0 where
  message_encoding_unknown : FeatureSetMessageEncoding
  length_prefixed : FeatureSetMessageEncoding
  delimited : FeatureSetMessageEncoding
  unrecognized : FeatureSetMessageEncoding

-- The numbers of the enum.
abbrev pub code : FeatureSetMessageEncoding → Option ℕ
code message_encoding_unknown = some 0
code length_prefixed = some 1
code delimited = some 2
code unrecognized = unnumbered

-- featureSet_MessageEncodingFromJSON
unfoldable pub from_json : Value → FeatureSetMessageEncoding
from_json v =
    switch_enum
      (case_of 0 "MESSAGE_ENCODING_UNKNOWN" message_encoding_unknown
        ∷ case_of 1 "LENGTH_PREFIXED" length_prefixed
        ∷ case_of 2 "DELIMITED" delimited
        ∷ [])
      unrecognized v

-- featureSet_MessageEncodingToJSON
unfoldable pub to_json : FeatureSetMessageEncoding → String
to_json message_encoding_unknown = "MESSAGE_ENCODING_UNKNOWN"
to_json length_prefixed = "LENGTH_PREFIXED"
to_json delimited = "DELIMITED"
to_json unrecognized = "UNRECOGNIZED"

name_read_back : (e : FeatureSetMessageEncoding) → ReadsName unrecognized code from_json to_json e
unfolding from_json to_json switch_enum matches
name_read_back message_encoding_unknown = refl
name_read_back length_prefixed = refl
name_read_back delimited = refl
name_read_back unrecognized = refl

number_read_back :
    (e : FeatureSetMessageEncoding) → ReadsNumber unrecognized code from_json to_json e
unfolding from_json switch_enum matches
number_read_back message_encoding_unknown = inr (0, refl, refl)
number_read_back length_prefixed = inr (1, refl, refl)
number_read_back delimited = inr (2, refl, refl)
number_read_back unrecognized = inl (refl, refl)

pub FeatureSetMessageEncoding-IsEnum : IsEnum unrecognized code from_json to_json
unfolding from_json to_json
FeatureSetMessageEncoding-IsEnum = record {
  by_name = name_read_back;
  by_number = number_read_back;
  only = λ v. switch_enum-StandsFor unrecognized code from_json to_json _ v refl;
}

abbrev pub fns : EnumFns FeatureSetMessageEncoding
fns = record { code = code; from_json = from_json; to_json = to_json }
