-- ===== src/Descriptor/Enums/SymbolVisibility.antt =====
-- enum SymbolVisibility of gen/ts/google/protobuf/descriptor.ts, with its JSON functions.
use merkle_proof_service.Prelude.{ℕ, String, refl, Option, some, [], ◌∷◌, inl, inr}
use merkle_proof_service.Json.Value.{Value}
use merkle_proof_service.Json.Enum.{
  EnumFns, unnumbered, case_of, matches, switch_enum, ReadsName, ReadsNumber, IsEnum,
  switch_enum-StandsFor,
}

pub data SymbolVisibility : Type 0 where
  visibility_unset : SymbolVisibility
  visibility_local : SymbolVisibility
  visibility_export : SymbolVisibility
  unrecognized : SymbolVisibility

-- The numbers of the enum.
abbrev pub code : SymbolVisibility → Option ℕ
code visibility_unset = some 0
code visibility_local = some 1
code visibility_export = some 2
code unrecognized = unnumbered

-- symbolVisibilityFromJSON
unfoldable pub from_json : Value → SymbolVisibility
from_json v =
    switch_enum
      (case_of 0 "VISIBILITY_UNSET" visibility_unset
        ∷ case_of 1 "VISIBILITY_LOCAL" visibility_local
        ∷ case_of 2 "VISIBILITY_EXPORT" visibility_export
        ∷ [])
      unrecognized v

-- symbolVisibilityToJSON
unfoldable pub to_json : SymbolVisibility → String
to_json visibility_unset = "VISIBILITY_UNSET"
to_json visibility_local = "VISIBILITY_LOCAL"
to_json visibility_export = "VISIBILITY_EXPORT"
to_json unrecognized = "UNRECOGNIZED"

name_read_back : (e : SymbolVisibility) → ReadsName unrecognized code from_json to_json e
unfolding from_json to_json switch_enum matches
name_read_back visibility_unset = refl
name_read_back visibility_local = refl
name_read_back visibility_export = refl
name_read_back unrecognized = refl

number_read_back : (e : SymbolVisibility) → ReadsNumber unrecognized code from_json to_json e
unfolding from_json switch_enum matches
number_read_back visibility_unset = inr (0, refl, refl)
number_read_back visibility_local = inr (1, refl, refl)
number_read_back visibility_export = inr (2, refl, refl)
number_read_back unrecognized = inl (refl, refl)

pub SymbolVisibility-IsEnum : IsEnum unrecognized code from_json to_json
unfolding from_json to_json
SymbolVisibility-IsEnum = record {
  by_name = name_read_back;
  by_number = number_read_back;
  only = λ v. switch_enum-StandsFor unrecognized code from_json to_json _ v refl;
}

abbrev pub fns : EnumFns SymbolVisibility
fns = record { code = code; from_json = from_json; to_json = to_json }
