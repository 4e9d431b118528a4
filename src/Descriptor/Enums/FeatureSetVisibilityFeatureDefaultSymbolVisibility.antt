-- ===== src/Descriptor/Enums/FeatureSetVisibilityFeatureDefaultSymbolVisibility.antt =====
-- enum FeatureSet_VisibilityFeature_DefaultSymbolVisibility of gen/ts/google/protobuf/descriptor.ts, with its JSON functions.
use merkle_proof_service.Prelude.{ℕ, String, refl, Option, some, [], ◌∷◌, inl, inr}
use merkle_proof_service.Json.Value.{Value}
use merkle_proof_service.Json.Enum.{
  EnumFns, unnumbered, case_of, matches, switch_enum, ReadsName, ReadsNumber, IsEnum,
  switch_enum-StandsFor,
}

pub data FeatureSetVisibilityFeatureDefaultSymbolVisibility : Type 0 where
  default_symbol_visibility_unknown : FeatureSetVisibilityFeatureDefaultSymbolVisibility
  export_all : FeatureSetVisibilityFeatureDefaultSymbolVisibility
  export_top_level : FeatureSetVisibilityFeatureDefaultSymbolVisibility
  local_all : FeatureSetVisibilityFeatureDefaultSymbolVisibility
  strict : FeatureSetVisibilityFeatureDefaultSymbolVisibility
  unrecognized : FeatureSetVisibilityFeatureDefaultSymbolVisibility

-- The numbers of the enum.
abbrev pub code : FeatureSetVisibilityFeatureDefaultSymbolVisibility → Option ℕ
code default_symbol_visibility_unknown = some 0
code export_all = some 1
code export_top_level = some 2
code local_all = some 3
code strict = some 4
code unrecognized = unnumbered

-- featureSet_VisibilityFeature_DefaultSymbolVisibilityFromJSON
unfoldable pub from_json : Value → FeatureSetVisibilityFeatureDefaultSymbolVisibility
from_json v =
    switch_enum
      (case_of 0 "DEFAULT_SYMBOL_VISIBILITY_UNKNOWN" default_symbol_visibility_unknown
        ∷ case_of 1 "EXPORT_ALL" export_all
        ∷ case_of 2 "EXPORT_TOP_LEVEL" export_top_level
        ∷ case_of 3 "LOCAL_ALL" local_all
        ∷ case_of 4 "STRICT" strict
        ∷ [])
      unrecognized v

-- featureSet_VisibilityFeature_DefaultSymbolVisibilityToJSON
unfoldable pub to_json : FeatureSetVisibilityFeatureDefaultSymbolVisibility → String
to_json default_symbol_visibility_unknown = "DEFAULT_SYMBOL_VISIBILITY_UNKNOWN"
to_json export_all = "EXPORT_ALL"
to_json export_top_level = "EXPORT_TOP_LEVEL"
to_json local_all = "LOCAL_ALL"
to_json strict = "STRICT"
to_json unrecognized = "UNRECOGNIZED"

name_read_back :
    (e : FeatureSetVisibilityFeatureDefaultSymbolVisibility)
    → ReadsName unrecognized code from_json to_json e
unfolding from_json to_json switch_enum matches
name_read_back default_symbol_visibility_unknown = refl
name_read_back export_all = refl
name_read_back export_top_level = refl
name_read_back local_all = refl
name_read_back strict = refl
name_read_back unrecognized = refl

number_read_back :
    (e : FeatureSetVisibilityFeatureDefaultSymbolVisibility)
    → ReadsNumber unrecognized code from_json to_json e
unfolding from_json switch_enum matches
number_read_back default_symbol_visibility_unknown = inr (0, refl, refl)
number_read_back export_all = inr (1, refl, refl)
number_read_back export_top_level = inr (2, refl, refl)
number_read_back local_all = inr (3, refl, refl)
number_read_back strict = inr (4, refl, refl)
number_read_back unrecognized = inl (refl, refl)

pub FeatureSetVisibilityFeatureDefaultSymbolVisibility-IsEnum :
    IsEnum unrecognized code from_json to_json
unfolding from_json to_json
FeatureSetVisibilityFeatureDefaultSymbolVisibility-IsEnum = record {
  by_name = name_read_back;
  by_number = number_read_back;
  only = λ v. switch_enum-StandsFor unrecognized code from_json to_json _ v refl;
}

abbrev pub fns : EnumFns FeatureSetVisibilityFeatureDefaultSymbolVisibility
fns = record { code = code; from_json = from_json; to_json = to_json }
