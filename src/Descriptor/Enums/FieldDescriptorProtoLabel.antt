-- ===== src/Descriptor/Enums/FieldDescriptorProtoLabel.antt =====
-- enum FieldDescriptorProto_Label of gen/ts/google/protobuf/descriptor.ts, with its JSON functions.
use merkle_proof_service.Prelude.{ℕ, String, refl, Option, some, [], ◌∷◌, inl, inr}
use merkle_proof_service.Json.Value.{Value}
use merkle_proof_service.Json.Enum.{
  EnumFns, unnumbered, case_of, matches, switch_enum, ReadsName, ReadsNumber, IsEnum,
  switch_enum-StandsFor,
}

pub data FieldDescriptorProtoLabel : Type 0 where
  label_optional : FieldDescriptorProtoLabel
  label_repeated : FieldDescriptorProtoLabel
  label_required : FieldDescriptorProtoLabel
  unrecognized : FieldDescriptorProtoLabel

-- The numbers of the enum.
abbrev pub code : FieldDescriptorProtoLabel → Option ℕ
code label_optional = some 1
code label_repeated = some 3
code label_required = some 2
code unrecognized = unnumbered

-- fieldDescriptorProto_LabelFromJSON
unfoldable pub from_json : Value → FieldDescriptorProtoLabel
from_json v =
    switch_enum
      (case_of 1 "LABEL_OPTIONAL" label_optional
        ∷ case_of 3 "LABEL_REPEATED" label_repeated
        ∷ case_of 2 "LABEL_REQUIRED" label_required
        ∷ [])
      unrecognized v

-- fieldDescriptorProto_LabelToJSON
unfoldable pub to_json : FieldDescriptorProtoLabel → String
to_json label_optional = "LABEL_OPTIONAL"
to_json label_repeated = "LABEL_REPEATED"
to_json label_required = "LABEL_REQUIRED"
to_json unrecognized = "UNRECOGNIZED"

name_read_back : (e : FieldDescriptorProtoLabel) → ReadsName unrecognized code from_json to_json e
unfolding from_json to_json switch_enum matches
name_read_back label_optional = refl
name_read_back label_repeated = refl
name_read_back label_required = refl
name_read_back unrecognized = refl

number_read_back :
    (e : FieldDescriptorProtoLabel) → ReadsNumber unrecognized code from_json to_json e
unfolding from_json switch_enum matches
number_read_back label_optional = inr (1, refl, refl)
number_read_back label_repeated = inr (3, refl, refl)
number_read_back label_required = inr (2, refl, refl)
number_read_back unrecognized = inl (refl, refl)

pub FieldDescriptorProtoLabel-IsEnum : IsEnum unrecognized code from_json to_json
unfolding from_json to_json
FieldDescriptorProtoLabel-IsEnum = record {
  by_name = name_read_back;
  by_number = number_read_back;
  only = λ v. switch_enum-StandsFor unrecognized code from_json to_json _ v refl;
}

abbrev pub fns : EnumFns FieldDescriptorProtoLabel
fns = record { code = code; from_json = from_json; to_json = to_json }
