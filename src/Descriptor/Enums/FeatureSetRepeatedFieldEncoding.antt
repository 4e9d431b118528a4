-- ===== src/Descriptor/Enums/FeatureSetRepeatedFieldEncoding.antt =====
-- enum FeatureSet_RepeatedFieldEncoding of gen/ts/google/protobuf/descriptor.ts, with its JSON functions.
use merkle_proof_service.Prelude.{ℕ, String, refl, Option, some, [], ◌∷◌, inl, inr}
use merkle_proof_service.Json.Value.{Value}
use merkle_proof_service.Json.Enum.{
  EnumFns, unnumbered, case_of, matches, switch_enum, ReadsName, ReadsNumber, IsEnum,
  switch_enum-StandsFor,
}

pub data FeatureSetRepeatedFieldEncoding : Type 0 where
  repeated_field_encoding_unknown : FeatureSetRepeatedFieldEncoding
  packed : FeatureSetRepeatedFieldEncoding
  expanded : FeatureSetRepeatedFieldEncoding
  unrecognized : FeatureSetRepeatedFieldEncoding

-- The numbers of the enum.
abbrev pub code : FeatureSetRepeatedFieldEncoding → Option ℕ
code repeated_field_encoding_unknown = some 0
code packed = some 1
code expanded = some 2
code unrecognized = unnumbered

-- featureSet_RepeatedFieldEncodingFromJSON
unfoldable pub from_json : Value → FeatureSetRepeatedFieldEncoding
from_json v =
    switch_enum
      (case_of 0 "REPEATED_FIELD_ENCODING_UNKNOWN" repeated_field_encoding_unknown
        ∷ case_of 1 "PACKED" packed
        ∷ case_of 2 "EXPANDED" expanded
        ∷ [])
      unrecognized v

-- featureSet_RepeatedFieldEncodingToJSON
unfoldable pub to_json : FeatureSetRepeatedFieldEncoding → String
to_json repeated_field_encoding_unknown = "REPEATED_FIELD_ENCODING_UNKNOWN"
to_json packed = "PACKED"
to_json expanded = "EXPANDED"
to_json unrecognized = "UNRECOGNIZED"

name_read_back :
    (e : FeatureSetRepeatedFieldEncoding) → ReadsName unrecognized code from_json to_json e
unfolding from_json to_json switch_enum matches
name_read_back repeated_field_encoding_unknown = refl
name_read_back packed = refl
name_read_back expanded = refl
name_read_back unrecognized = refl

number_read_back :
    (e : FeatureSetRepeatedFieldEncoding) → ReadsNumber unrecognized code from_json to_json e
unfolding from_json switch_enum matches
number_read_back repeated_field_encoding_unknown = inr (0, refl, refl)
number_read_back packed = inr (1, refl, refl)
number_read_back expanded = inr (2, refl, refl)
number_read_back unrecognized = inl (refl, refl)

pub FeatureSetRepeatedFieldEncoding-IsEnum : IsEnum unrecognized code from_json to_json
unfolding from_json to_json
FeatureSetRepeatedFieldEncoding-IsEnum = record {
  by_name = name_read_back;
  by_number = number_read_back;
  only = λ v. switch_enum-StandsFor unrecognized code from_json to_json _ v refl;
}

abbrev pub fns : EnumFns FeatureSetRepeatedFieldEncoding
fns = record { code = code; from_json = from_json; to_json = to_json }
