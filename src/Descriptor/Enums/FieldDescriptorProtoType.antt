-- ===== src/Descriptor/Enums/FieldDescriptorProtoType.antt =====
-- enum FieldDescriptorProto_Type of gen/ts/google/protobuf/descriptor.ts, with its JSON functions.
use merkle_proof_service.Prelude.{ℕ, String, refl, Option, some, [], ◌∷◌, inl, inr}
use merkle_proof_service.Json.Value.{Value}
use merkle_proof_service.Json.Enum.{
  EnumFns, unnumbered, case_of, matches, switch_enum, ReadsName, ReadsNumber, IsEnum,
  switch_enum-StandsFor,
}

pub data FieldDescriptorProtoType : Type 0 where
  type_double : FieldDescriptorProtoType
  type_float : FieldDescriptorProtoType
  type_int64 : FieldDescriptorProtoType
  type_uint64 : FieldDescriptorProtoType
  type_int32 : FieldDescriptorProtoType
  type_fixed64 : FieldDescriptorProtoType
  type_fixed32 : FieldDescriptorProtoType
  type_bool : FieldDescriptorProtoType
  type_string : FieldDescriptorProtoType
  type_group : FieldDescriptorProtoType
  type_message : FieldDescriptorProtoType
  type_bytes : FieldDescriptorProtoType
  type_uint32 : FieldDescriptorProtoType
  type_enum : FieldDescriptorProtoType
  type_sfixed32 : FieldDescriptorProtoType
  type_sfixed64 : FieldDescriptorProtoType
  type_sint32 : FieldDescriptorProtoType
  type_sint64 : FieldDescriptorProtoType
  unrecognized : FieldDescriptorProtoType

-- The numbers of the enum.
abbrev pub code : FieldDescriptorProtoType → Option ℕ
code type_double = some 1
code type_float = some 2
code type_int64 = some 3
code type_uint64 = some 4
code type_int32 = some 5
code type_fixed64 = some 6
code type_fixed32 = some 7
code type_bool = some 8
code type_string = some 9
code type_group = some 10
code type_message = some 11
code type_bytes = some 12
code type_uint32 = some 13
code type_enum = some 14
code type_sfixed32 = some 15
code type_sfixed64 = some 16
code type_sint32 = some 17
code type_sint64 = some 18
code unrecognized = unnumbered

-- fieldDescriptorProto_TypeFromJSON
unfoldable pub from_json : Value → FieldDescriptorProtoType
from_json v =
    switch_enum
      (case_of 1 "TYPE_DOUBLE" type_double
        ∷ case_of 2 "TYPE_FLOAT" type_float
        ∷ case_of 3 "TYPE_INT64" type_int64
        ∷ case_of 4 "TYPE_UINT64" type_uint64
        ∷ case_of 5 "TYPE_INT32" type_int32
        ∷ case_of 6 "TYPE_FIXED64" type_fixed64
        ∷ case_of 7 "TYPE_FIXED32" type_fixed32
        ∷ case_of 8 "TYPE_BOOL" type_bool
        ∷ case_of 9 "TYPE_STRING" type_string
        ∷ case_of 10 "TYPE_GROUP" type_group
        ∷ case_of 11 "TYPE_MESSAGE" type_message
        ∷ case_of 12 "TYPE_BYTES" type_bytes
        ∷ case_of 13 "TYPE_UINT32" type_uint32
        ∷ case_of 14 "TYPE_ENUM" type_enum
        ∷ case_of 15 "TYPE_SFIXED32" type_sfixed32
        ∷ case_of 16 "TYPE_SFIXED64" type_sfixed64
        ∷ case_of 17 "TYPE_SINT32" type_sint32
        ∷ case_of 18 "TYPE_SINT64" type_sint64
        ∷ [])
      unrecognized v

-- fieldDescriptorProto_TypeToJSON
unfoldable pub to_json : FieldDescriptorProtoType → String
to_json type_double = "TYPE_DOUBLE"
to_json type_float = "TYPE_FLOAT"
to_json type_int64 = "TYPE_INT64"
to_json type_uint64 = "TYPE_UINT64"
to_json type_int32 = "TYPE_INT32"
to_json type_fixed64 = "TYPE_FIXED64"
to_json type_fixed32 = "TYPE_FIXED32"
to_json type_bool = "TYPE_BOOL"
to_json type_string = "TYPE_STRING"
to_json type_group = "TYPE_GROUP"
to_json type_message = "TYPE_MESSAGE"
to_json type_bytes = "TYPE_BYTES"
to_json type_uint32 = "TYPE_UINT32"
to_json type_enum = "TYPE_ENUM"
to_json type_sfixed32 = "TYPE_SFIXED32"
to_json type_sfixed64 = "TYPE_SFIXED64"
to_json type_sint32 = "TYPE_SINT32"
to_json type_sint64 = "TYPE_SINT64"
to_json unrecognized = "UNRECOGNIZED"

name_read_back : (e : FieldDescriptorProtoType) → ReadsName unrecognized code from_json to_json e
unfolding from_json to_json switch_enum matches
name_read_back type_double = refl
name_read_back type_float = refl
name_read_back type_int64 = refl
name_read_back type_uint64 = refl
name_read_back type_int32 = refl
name_read_back type_fixed64 = refl
name_read_back type_fixed32 = refl
name_read_back type_bool = refl
name_read_back type_string = refl
name_read_back type_group = refl
name_read_back type_message = refl
name_read_back type_bytes = refl
name_read_back type_uint32 = refl
name_read_back type_enum = refl
name_read_back type_sfixed32 = refl
name_read_back type_sfixed64 = refl
name_read_back type_sint32 = refl
name_read_back type_sint64 = refl
name_read_back unrecognized = refl

number_read_back :
    (e : FieldDescriptorProtoType) → ReadsNumber unrecognized code from_json to_json e
unfolding from_json switch_enum matches
number_read_back type_double = inr (1, refl, refl)
number_read_back type_float = inr (2, refl, refl)
number_read_back type_int64 = inr (3, refl, refl)
number_read_back type_uint64 = inr (4, refl, refl)
number_read_back type_int32 = inr (5, refl, refl)
number_read_back type_fixed64 = inr (6, refl, refl)
number_read_back type_fixed32 = inr (7, refl, refl)
number_read_back type_bool = inr (8, refl, refl)
number_read_back type_string = inr (9, refl, refl)
number_read_back type_group = inr (10, refl, refl)
number_read_back type_message = inr (11, refl, refl)
number_read_back type_bytes = inr (12, refl, refl)
number_read_back type_uint32 = inr (13, refl, refl)
number_read_back type_enum = inr (14, refl, refl)
number_read_back type_sfixed32 = inr (15, refl, refl)
number_read_back type_sfixed64 = inr (16, refl, refl)
number_read_back type_sint32 = inr (17, refl, refl)
number_read_back type_sint64 = inr (18, refl, refl)
number_read_back unrecognized = inl (refl, refl)

pub FieldDescriptorProtoType-IsEnum : IsEnum unrecognized code from_json to_json
unfolding from_json to_json
FieldDescriptorProtoType-IsEnum = record {
  by_name = name_read_back;
  by_number = number_read_back;
  only = λ v. switch_enum-StandsFor unrecognized code from_json to_json _ v refl;
}

abbrev pub fns : EnumFns FieldDescriptorProtoType
fns = record { code = code; from_json = from_json; to_json = to_json }
