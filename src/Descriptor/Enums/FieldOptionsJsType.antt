-- ===== src/Descriptor/Enums/FieldOptionsJsType.antt =====
-- enum FieldOptions_JSType of gen/ts/google/protobuf/descriptor.ts, with its JSON functions.
use merkle_proof_service.Prelude.{ℕ, String, refl, Option, some, [], ◌∷◌, inl, inr}
use merkle_proof_service.Json.Value.{Value}
use merkle_proof_service.Json.Enum.{
  EnumFns, unnumbered, case_of, matches, switch_enum, ReadsName, ReadsNumber, IsEnum,
  switch_enum-StandsFor,
}

pub data FieldOptionsJsType : Type 0 where
  js_normal : FieldOptionsJsType
  js_string : FieldOptionsJsType
  js_number : FieldOptionsJsType
  unrecognized : FieldOptionsJsType

-- The numbers of the enum.
abbrev pub code : FieldOptionsJsType → Option ℕ
code js_normal = some 0
code js_string = some 1
code js_number = some 2
code unrecognized = unnumbered

-- fieldOptions_JSTypeFromJSON
unfoldable pub from_json : Value → FieldOptionsJsType
from_json v =
    switch_enum
      (case_of 0 "JS_NORMAL" js_normal
        ∷ case_of 1 "JS_STRING" js_string
        ∷ case_of 2 "JS_NUMBER" js_number
        ∷ [])
      unrecognized v

-- fieldOptions_JSTypeToJSON
unfoldable pub to_json : FieldOptionsJsType → String
to_json js_normal = "JS_NORMAL"
to_json js_string = "JS_STRING"
to_json js_number = "JS_NUMBER"
to_json unrecognized = "UNRECOGNIZED"

name_read_back : (e : FieldOptionsJsType) → ReadsName unrecognized code from_json to_json e
unfolding from_json to_json switch_enum matches
name_read_back js_normal = refl
name_read_back js_string = refl
name_read_back js_number = refl
name_read_back unrecognized = refl

number_read_back : (e : FieldOptionsJsType) → ReadsNumber unrecognized code from_json to_json e
unfolding from_json switch_enum matches
number_read_back js_normal = inr (0, refl, refl)
number_read_back js_string = inr (1, refl, refl)
number_read_back js_number = inr (2, refl, refl)
number_read_back unrecognized = inl (refl, refl)

pub FieldOptionsJsType-IsEnum : IsEnum unrecognized code from_json to_json
unfolding from_json to_json
FieldOptionsJsType-IsEnum = record {
  by_name = name_read_back;
  by_number = number_read_back;
  only = λ v. switch_enum-StandsFor unrecognized code from_json to_json _ v refl;
}

abbrev pub fns : EnumFns FieldOptionsJsType
fns = record { code = code; from_json = from_json; to_json = to_json }
