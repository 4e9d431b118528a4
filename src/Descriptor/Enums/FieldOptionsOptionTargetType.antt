-- ===== src/Descriptor/Enums/FieldOptionsOptionTargetType.antt =====
-- enum FieldOptions_OptionTargetType of gen/ts/google/protobuf/descriptor.ts, with its JSON functions.
use merkle_proof_service.Prelude.{ℕ, String, refl, Option, some, [], ◌∷◌, inl, inr}
use merkle_proof_service.Json.Value.{Value}
use merkle_proof_service.Json.Enum.{
  EnumFns, unnumbered, case_of, matches, switch_enum, ReadsName, ReadsNumber, IsEnum,
  switch_enum-StandsFor,
}

pub data FieldOptionsOptionTargetType : Type 0 where
  target_type_unknown : FieldOptionsOptionTargetType
  target_type_file : FieldOptionsOptionTargetType
  target_type_extension_range : FieldOptionsOptionTargetType
  target_type_message : FieldOptionsOptionTargetType
  target_type_field : FieldOptionsOptionTargetType
  target_type_oneof : FieldOptionsOptionTargetType
  target_type_enum : FieldOptionsOptionTargetType
  target_type_enum_entry : FieldOptionsOptionTargetType
  target_type_service : FieldOptionsOptionTargetType
  target_type_method : FieldOptionsOptionTargetType
  unrecognized : FieldOptionsOptionTargetType

-- The numbers of the enum.
abbrev pub code : FieldOptionsOptionTargetType → Option ℕ
code target_type_unknown = some 0
code target_type_file = some 1
code target_type_extension_range = some 2
code target_type_message = some 3
code target_type_field = some 4
code target_type_oneof = some 5
code target_type_enum = some 6
code target_type_enum_entry = some 7
code target_type_service = some 8
code target_type_method = some 9
code unrecognized = unnumbered

-- fieldOptions_OptionTargetTypeFromJSON
unfoldable pub from_json : Value → FieldOptionsOptionTargetType
from_json v =
    switch_enum
      (case_of 0 "TARGET_TYPE_UNKNOWN" target_type_unknown
        ∷ case_of 1 "TARGET_TYPE_FILE" target_type_file
        ∷ case_of 2 "TARGET_TYPE_EXTENSION_RANGE" target_type_extension_range
        ∷ case_of 3 "TARGET_TYPE_MESSAGE" target_type_message
        ∷ case_of 4 "TARGET_TYPE_FIELD" target_type_field
        ∷ case_of 5 "TARGET_TYPE_ONEOF" target_type_oneof
        ∷ case_of 6 "TARGET_TYPE_ENUM" target_type_enum
        ∷ case_of 7 "TARGET_TYPE_ENUM_ENTRY" target_type_enum_entry
        ∷ case_of 8 "TARGET_TYPE_SERVICE" target_type_service
        ∷ case_of 9 "TARGET_TYPE_METHOD" target_type_method
        ∷ [])
      unrecognized v

-- fieldOptions_OptionTargetTypeToJSON
unfoldable pub to_json : FieldOptionsOptionTargetType → String
to_json target_type_unknown = "TARGET_TYPE_UNKNOWN"
to_json target_type_file = "TARGET_TYPE_FILE"
to_json target_type_extension_range = "TARGET_TYPE_EXTENSION_RANGE"
to_json target_type_message = "TARGET_TYPE_MESSAGE"
to_json target_type_field = "TARGET_TYPE_FIELD"
to_json target_type_oneof = "TARGET_TYPE_ONEOF"
to_json target_type_enum = "TARGET_TYPE_ENUM"
to_json target_type_enum_entry = "TARGET_TYPE_ENUM_ENTRY"
to_json target_type_service = "TARGET_TYPE_SERVICE"
to_json target_type_method = "TARGET_TYPE_METHOD"
to_json unrecognized = "UNRECOGNIZED"

name_read_back :
    (e : FieldOptionsOptionTargetType) → ReadsName unrecognized code from_json to_json e
unfolding from_json to_json switch_enum matches
name_read_back target_type_unknown = refl
name_read_back target_type_file = refl
name_read_back target_type_extension_range = refl
name_read_back target_type_message = refl
name_read_back target_type_field = refl
name_read_back target_type_oneof = refl
name_read_back target_type_enum = refl
name_read_back target_type_enum_entry = refl
name_read_back target_type_service = refl
name_read_back target_type_method = refl
name_read_back unrecognized = refl

number_read_back :
    (e : FieldOptionsOptionTargetType) → ReadsNumber unrecognized code from_json to_json e
unfolding from_json switch_enum matches
number_read_back target_type_unknown = inr (0, refl, refl)
number_read_back target_type_file = inr (1, refl, refl)
number_read_back target_type_extension_range = inr (2, refl, refl)
number_read_back target_type_message = inr (3, refl, refl)
number_read_back target_type_field = inr (4, refl, refl)
number_read_back target_type_oneof = inr (5, refl, refl)
number_read_back target_type_enum = inr (6, refl, refl)
number_read_back target_type_enum_entry = inr (7, refl, refl)
number_read_back target_type_service = inr (8, refl, refl)
number_read_back target_type_method = inr (9, refl, refl)
number_read_back unrecognized = inl (refl, refl)

pub FieldOptionsOptionTargetType-IsEnum : IsEnum unrecognized code from_json to_json
unfolding from_json to_json
FieldOptionsOptionTargetType-IsEnum = record {
  by_name = name_read_back;
  by_number = number_read_back;
  only = λ v. switch_enum-StandsFor unrecognized code from_json to_json _ v refl;
}

abbrev pub fns : EnumFns FieldOptionsOptionTargetType
fns = record { code = code; from_json = from_json; to_json = to_json }
