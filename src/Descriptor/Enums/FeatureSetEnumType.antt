-- ===== src/Descriptor/Enums/FeatureSetEnumType.antt =====
-- enum FeatureSet_EnumType of gen/ts/google/protobuf/descriptor.ts, with its JSON functions.
use merkle_proof_service.Prelude.{ℕ, String, refl, Option, some, [], ◌∷◌, inl, inr}
use merkle_proof_service.Json.Value.{Value}
use merkle_proof_service.Json.Enum.{
  EnumFns, unnumbered, case_of, matches, switch_enum, ReadsName, ReadsNumber, IsEnum,
  switch_enum-StandsFor,
}

pub data FeatureSetEnumType : Type 0 where
  enum_type_unknown : FeatureSetEnumType
  open_enum : FeatureSetEnumType
  closed : FeatureSetEnumType
  unrecognized : FeatureSetEnumType

-- The numbers of the enum.
abbrev pub code : FeatureSetEnumType → Option ℕ
code enum_type_unknown = some 0
code open_enum = some 1
code closed = some 2
code unrecognized = unnumbered

-- featureSet_EnumTypeFromJSON
unfoldable pub from_json : Value → FeatureSetEnumType
from_json v =
    switch_enum
      (case_of 0 "ENUM_TYPE_UNKNOWN" enum_type_unknown
        ∷ case_of 1 "OPEN" open_enum
        ∷ case_of 2 "CLOSED" closed
        ∷ [])
      unrecognized v

-- featureSet_EnumTypeToJSON
unfoldable pub to_json : FeatureSetEnumType → String
to_json enum_type_unknown = "ENUM_TYPE_UNKNOWN"
to_json open_enum = "OPEN"
to_json closed = "CLOSED"
to_json unrecognized = "UNRECOGNIZED"

name_read_back : (e : FeatureSetEnumType) → ReadsName unrecognized code from_json to_json e
unfolding from_json to_json switch_enum matches
name_read_back enum_type_unknown = refl
name_read_back open_enum = refl
name_read_back closed = refl
name_read_back unrecognized = refl

number_read_back : (e : FeatureSetEnumType) → ReadsNumber unrecognized code from_json to_json e
unfolding from_json switch_enum matches
number_read_back enum_type_unknown = inr (0, refl, refl)
number_read_back open_enum = inr (1, refl, refl)
number_read_back closed = inr (2, refl, refl)
number_read_back unrecognized = inl (refl, refl)

pub FeatureSetEnumType-IsEnum : IsEnum unrecognized code from_json to_json
unfolding from_json to_json
FeatureSetEnumType-IsEnum = record {
  by_name = name_read_back;
  by_number = number_read_back;
  only = λ v. switch_enum-StandsFor unrecognized code from_json to_json _ v refl;
}

abbrev pub fns : EnumFns FeatureSetEnumType
fns = record { code = code; from_json = from_json; to_json = to_json }
