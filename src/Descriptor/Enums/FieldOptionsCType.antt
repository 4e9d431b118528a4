-- ===== src/Descriptor/Enums/FieldOptionsCType.antt =====
-- enum FieldOptions_CType of gen/ts/google/protobuf/descriptor.ts, with its JSON functions.
use merkle_proof_service.Prelude.{ℕ, String, refl, Option, some, [], ◌∷◌, inl, inr}
use merkle_proof_service.Json.Value.{Value}
use merkle_proof_service.Json.Enum.{
  EnumFns, unnumbered, case_of, matches, switch_enum, ReadsName, ReadsNumber, IsEnum,
  switch_enum-StandsFor,
}

pub data FieldOptionsCType : Type 0 where
  string : FieldOptionsCType
  cord : FieldOptionsCType
  string_piece : FieldOptionsCType
  unrecognized : FieldOptionsCType

-- The numbers of the enum.
abbrev pub code : FieldOptionsCType → Option ℕ
code string = some 0
code cord = some 1
code string_piece = some 2
code unrecognized = unnumbered

-- fieldOptions_CTypeFromJSON
unfoldable pub from_json : Value → FieldOptionsCType
from_json v =
    switch_enum
      (case_of 0 "STRING" string
        ∷ case_of 1 "CORD" cord
        ∷ case_of 2 "STRING_PIECE" string_piece
        ∷ [])
      unrecognized v

-- fieldOptions_CTypeToJSON
unfoldable pub to_json : FieldOptionsCType → String
to_json string = "STRING"
to_json cord = "CORD"
to_json string_piece = "STRING_PIECE"
to_json unrecognized = "UNRECOGNIZED"

name_read_back : (e : FieldOptionsCType) → ReadsName unrecognized code from_json to_json e
unfolding from_json to_json switch_enum matches
name_read_back string = refl
name_read_back cord = refl
name_read_back string_piece = refl
name_read_back unrecognized = refl

number_read_back : (e : FieldOptionsCType) → ReadsNumber unrecognized code from_json to_json e
unfolding from_json switch_enum matches
number_read_back string = inr (0, refl, refl)
number_read_back cord = inr (1, refl, refl)
number_read_back string_piece = inr (2, refl, refl)
number_read_back unrecognized = inl (refl, refl)

pub FieldOptionsCType-IsEnum : IsEnum unrecognized code from_json to_json
unfolding from_json to_json
FieldOptionsCType-IsEnum = record {
  by_name = name_read_back;
  by_number = number_read_back;
  only = λ v. switch_enum-StandsFor unrecognized code from_json to_json _ v refl;
}

abbrev pub fns : EnumFns FieldOptionsCType
fns = record { code = code; from_json = from_json; to_json = to_json }
