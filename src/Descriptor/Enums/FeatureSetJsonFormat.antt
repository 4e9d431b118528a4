-- ===== src/Descriptor/Enums/FeatureSetJsonFormat.antt =====
-- enum FeatureSet_JsonFormat of gen/ts/google/protobuf/descriptor.ts, with its JSON functions.
use merkle_proof_service.Prelude.{ℕ, String, refl, Option, some, [], ◌∷◌, inl, inr}
use merkle_proof_service.Json.Value.{Value}
use merkle_proof_service.Json.Enum.{
  EnumFns, unnumbered, case_of, matches, switch_enum, ReadsName, ReadsNumber, IsEnum,
  switch_enum-StandsFor,
}

pub data FeatureSetJsonFormat : Type 0 where
  json_format_unknown : FeatureSetJsonFormat
  allow : FeatureSetJsonFormat
  legacy_best_effort : FeatureSetJsonFormat
  unrecognized : FeatureSetJsonFormat

-- The numbers of the enum.
abbrev pub code : FeatureSetJsonFormat → Option ℕ
code json_format_unknown = some 0
code allow = some 1
code legacy_best_effort = some 2
code unrecognized = unnumbered

-- featureSet_JsonFormatFromJSON
unfoldable pub from_json : Value → FeatureSetJsonFormat
from_json v =
    switch_enum
      (case_of 0 "JSON_FORMAT_UNKNOWN" json_format_unknown
        ∷ case_of 1 "ALLOW" allow
        ∷ case_of 2 "LEGACY_BEST_EFFORT" legacy_best_effort
        ∷ [])
      unrecognized v

-- featureSet_JsonFormatToJSON
unfoldable pub to_json : FeatureSetJsonFormat → String
to_json json_format_unknown = "JSON_FORMAT_UNKNOWN"
to_json allow = "ALLOW"
to_json legacy_best_effort = "LEGACY_BEST_EFFORT"
to_json unrecognized = "UNRECOGNIZED"

name_read_back : (e : FeatureSetJsonFormat) → ReadsName unrecognized code from_json to_json e
unfolding from_json to_json switch_enum matches
name_read_back json_format_unknown = refl
name_read_back allow = refl
name_read_back legacy_best_effort = refl
name_read_back unrecognized = refl

number_read_back : (e : FeatureSetJsonFormat) → ReadsNumber unrecognized code from_json to_json e
unfolding from_json switch_enum matches
number_read_back json_format_unknown = inr (0, refl, refl)
number_read_back allow = inr (1, refl, refl)
number_read_back legacy_best_effort = inr (2, refl, refl)
number_read_back unrecognized = inl (refl, refl)

pub FeatureSetJsonFormat-IsEnum : IsEnum unrecognized code from_json to_json
unfolding from_json to_json
FeatureSetJsonFormat-IsEnum = record {
  by_name = name_read_back;
  by_number = number_read_back;
  only = λ v. switch_enum-StandsFor unrecognized code from_json to_json _ v refl;
}

abbrev pub fns : EnumFns FeatureSetJsonFormat
fns = record { code = code; from_json = from_json; to_json = to_json }
