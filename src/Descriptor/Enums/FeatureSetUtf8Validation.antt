-- ===== src/Descriptor/Enums/FeatureSetUtf8Validation.antt =====
-- enum FeatureSet_Utf8Validation of gen/ts/google/protobuf/descriptor.ts, with its JSON functions.
use merkle_proof_service.Prelude.{ℕ, String, refl, Option, some, [], ◌∷◌, inl, inr}
use merkle_proof_service.Json.Value.{Value}
use merkle_proof_service.Json.Enum.{
  EnumFns, unnumbered, case_of, matches, switch_enum, ReadsName, ReadsNumber, IsEnum,
  switch_enum-StandsFor,
}

pub data FeatureSetUtf8Validation : Type 0 where
  utf8_validation_unknown : FeatureSetUtf8Validation
  verify : FeatureSetUtf8Validation
  none : FeatureSetUtf8Validation
  unrecognized : FeatureSetUtf8Validation

-- The numbers of the enum.
abbrev pub code : FeatureSetUtf8Validation → Option ℕ
code utf8_validation_unknown = some 0
code verify = some 2
code none = some 3
code unrecognized = unnumbered

-- featureSet_Utf8ValidationFromJSON
unfoldable pub from_json : Value → FeatureSetUtf8Validation
from_json v =
    switch_enum
      (case_of 0 "UTF8_VALIDATION_UNKNOWN" utf8_validation_unknown
        ∷ case_of 2 "VERIFY" verify
        ∷ case_of 3 "NONE" none
        ∷ [])
      unrecognized v

-- featureSet_Utf8ValidationToJSON
unfoldable pub to_json : FeatureSetUtf8Validation → String
to_json utf8_validation_unknown = "UTF8_VALIDATION_UNKNOWN"
to_json verify = "VERIFY"
to_json none = "NONE"
to_json unrecognized = "UNRECOGNIZED"

name_read_back : (e : FeatureSetUtf8Validation) → ReadsName unrecognized code from_json to_json e
unfolding from_json to_json switch_enum matches
name_read_back utf8_validation_unknown = refl
name_read_back verify = refl
name_read_back none = refl
name_read_back unrecognized = refl

number_read_back :
    (e : FeatureSetUtf8Validation) → ReadsNumber unrecognized code from_json to_json e
unfolding from_json switch_enum matches
number_read_back utf8_validation_unknown = inr (0, refl, refl)
number_read_back verify = inr (2, refl, refl)
number_read_back none = inr (3, refl, refl)
number_read_back unrecognized = inl (refl, refl)

pub FeatureSetUtf8Validation-IsEnum : IsEnum unrecognized code from_json to_json
unfolding from_json to_json
FeatureSetUtf8Validation-IsEnum = record {
  by_name = name_read_back;
  by_number = number_read_back;
  only = λ v. switch_enum-StandsFor unrecognized code from_json to_json _ v refl;
}

abbrev pub fns : EnumFns FeatureSetUtf8Validation
fns = record { code = code; from_json = from_json; to_json = to_json }
