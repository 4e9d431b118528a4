-- ===== src/Descriptor/Enums/FeatureSetEnforceNamingStyle.antt =====
-- enum FeatureSet_EnforceNamingStyle of gen/ts/google/protobuf/descriptor.ts, with its JSON functions.
use merkle_proof_service.Prelude.{ℕ, String, refl, Option, some, [], ◌∷◌, inl, inr}
use merkle_proof_service.Json.Value.{Value}
use merkle_proof_service.Json.Enum.{
  EnumFns, unnumbered, case_of, matches, switch_enum, ReadsName, ReadsNumber, IsEnum,
  switch_enum-StandsFor,
}

pub data FeatureSetEnforceNamingStyle : Type 0 where
  enforce_naming_style_unknown : FeatureSetEnforceNamingStyle
  style2024 : FeatureSetEnforceNamingStyle
  style_legacy : FeatureSetEnforceNamingStyle
  unrecognized : FeatureSetEnforceNamingStyle

-- The numbers of the enum.
abbrev pub code : FeatureSetEnforceNamingStyle → Option ℕ
code enforce_naming_style_unknown = some 0
code style2024 = some 1
code style_legacy = some 2
code unrecognized = unnumbered

-- featureSet_EnforceNamingStyleFromJSON
unfoldable pub from_json : Value → FeatureSetEnforceNamingStyle
from_json v =
    switch_enum
      (case_of 0 "ENFORCE_NAMING_STYLE_UNKNOWN" enforce_naming_style_unknown
        ∷ case_of 1 "STYLE2024" style2024
        ∷ case_of 2 "STYLE_LEGACY" style_legacy
        ∷ [])
      unrecognized v

-- featureSet_EnforceNamingStyleToJSON
unfoldable pub to_json : FeatureSetEnforceNamingStyle → String
to_json enforce_naming_style_unknown = "ENFORCE_NAMING_STYLE_UNKNOWN"
to_json style2024 = "STYLE2024"
to_json style_legacy = "STYLE_LEGACY"
to_json unrecognized = "UNRECOGNIZED"

name_read_back :
    (e : FeatureSetEnforceNamingStyle) → ReadsName unrecognized code from_json to_json e
unfolding from_json to_json switch_enum matches
name_read_back enforce_naming_style_unknown = refl
name_read_back style2024 = refl
name_read_back style_legacy = refl
name_read_back unrecognized = refl

number_read_back :
    (e : FeatureSetEnforceNamingStyle) → ReadsNumber unrecognized code from_json to_json e
unfolding from_json switch_enum matches
number_read_back enforce_naming_style_unknown = inr (0, refl, refl)
number_read_back style2024 = inr (1, refl, refl)
number_read_back style_legacy = inr (2, refl, refl)
number_read_back unrecognized = inl (refl, refl)

pub FeatureSetEnforceNamingStyle-IsEnum : IsEnum unrecognized code from_json to_json
unfolding from_json to_json
FeatureSetEnforceNamingStyle-IsEnum = record {
  by_name = name_read_back;
  by_number = number_read_back;
  only = λ v. switch_enum-StandsFor unrecognized code from_json to_json _ v refl;
}

abbrev pub fns : EnumFns FeatureSetEnforceNamingStyle
fns = record { code = code; from_json = from_json; to_json = to_json }
