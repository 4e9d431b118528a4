-- ===== src/Descriptor/FieldDescriptorProto.antt =====
-- FieldDescriptorProto of gen/ts/google/protobuf/descriptor.ts.
pub mod Laws
use merkle_proof_service.Descriptor.FieldOptions.{FieldOptions, FieldOptionsPartial}
use merkle_proof_service.Descriptor.FieldOptions
use merkle_proof_service.Descriptor.Enums.FieldDescriptorProtoLabel
use merkle_proof_service.Descriptor.Enums.FieldDescriptorProtoType
use merkle_proof_service.Message.Statements.{
  ℤ, pos, String, Bool, false, Option, none, some, List, [], ◌∷◌, Outcome, ok, ◌>>=◌, Wire, Writer,
  ◌▸◌, write_message, Case, case_at, Decoder, decode_with, on_message, Value, Runtime, message_of,
  message_entry, build, or_else, map_option, MessageFns, string_type, bool_type, int32_type,
  member_type, write_present, on_scalar, present_of, present_entry, or_present, store,
}

pub record FieldDescriptorProto : Type 0 where
  pub name : Option String
  pub number : Option ℤ
  pub label : Option ℤ
  pub type : Option ℤ
  pub type_name : Option String
  pub extendee : Option String
  pub default_value : Option String
  pub oneof_index : Option ℤ
  pub json_name : Option String
  pub options : Option FieldOptions
  pub proto3_optional : Option Bool

-- DeepPartial<FieldDescriptorProto>: `none` for a property that is missing or null.
pub record FieldDescriptorProtoPartial : Type 0 where
  pub name : Option String
  pub number : Option ℤ
  pub label : Option ℤ
  pub type : Option ℤ
  pub type_name : Option String
  pub extendee : Option String
  pub default_value : Option String
  pub oneof_index : Option ℤ
  pub json_name : Option String
  pub options : Option FieldOptionsPartial
  pub proto3_optional : Option Bool

-- createBaseFieldDescriptorProto
abbrev pub base : FieldDescriptorProto
base = record {
  name = some "";
  number = some (pos 0);
  label = some (pos 1);
  type = some (pos 1);
  type_name = some "";
  extendee = some "";
  default_value = some "";
  oneof_index = some (pos 0);
  json_name = some "";
  options = none;
  proto3_optional = some false;
}

module _ (w : Wire) (rt : Runtime) where
  unfoldable pub encode : FieldDescriptorProto → Writer → Writer
  encode message =
      write_present w (string_type w rt) 10 message.name
      ▸ write_present w (int32_type w rt) 24 message.number
      ▸ write_present w (member_type w rt FieldDescriptorProtoLabel.fns 1) 32 message.label
      ▸ write_present w (member_type w rt FieldDescriptorProtoType.fns 1) 40 message.type
      ▸ write_present w (string_type w rt) 50 message.type_name
      ▸ write_present w (string_type w rt) 18 message.extendee
      ▸ write_present w (string_type w rt) 58 message.default_value
      ▸ write_present w (int32_type w rt) 72 message.oneof_index
      ▸ write_present w (string_type w rt) 82 message.json_name
      ▸ write_message w (FieldOptions.encode w rt) 66 message.options
      ▸ write_present w (bool_type w rt false) 136 message.proto3_optional

  -- The cases of the switch in `decode`.
  abbrev pub cases : List (Case FieldDescriptorProto)
  cases =
      case_at 1 10 (on_scalar (string_type w rt) (store (λ m v. record m { name = v })))
      ∷ case_at 3 24 (on_scalar (int32_type w rt) (store (λ m v. record m { number = v })))
      ∷ case_at 4 32 (
          on_scalar (member_type w rt FieldDescriptorProtoLabel.fns 1)
            (store (λ m v. record m { label = v })))
      ∷ case_at 5 40 (
          on_scalar (member_type w rt FieldDescriptorProtoType.fns 1)
            (store (λ m v. record m { type = v })))
      ∷ case_at 6 50 (on_scalar (string_type w rt) (store (λ m v. record m { type_name = v })))
      ∷ case_at 2 18 (on_scalar (string_type w rt) (store (λ m v. record m { extendee = v })))
      ∷ case_at 7 58 (on_scalar (string_type w rt) (store (λ m v. record m { default_value = v })))
      ∷ case_at 9 72 (on_scalar (int32_type w rt) (store (λ m v. record m { oneof_index = v })))
      ∷ case_at 10 82 (on_scalar (string_type w rt) (store (λ m v. record m { json_name = v })))
      ∷ case_at 8 66
          (on_message w (FieldOptions.decode w rt) (store (λ m v. record m { options = v })))
      ∷ case_at 17 136
          (on_scalar (bool_type w rt false) (store (λ m v. record m { proto3_optional = v })))
      ∷ []

  unfoldable pub decode : Decoder FieldDescriptorProto
  decode = decode_with w cases base

  unfoldable pub from_json : Value → Outcome FieldDescriptorProto
  from_json json = do
    name ← present_of (string_type w rt) "name" json
    number ← present_of (int32_type w rt) "number" json
    label ← present_of (member_type w rt FieldDescriptorProtoLabel.fns 1) "label" json
    type ← present_of (member_type w rt FieldDescriptorProtoType.fns 1) "type" json
    type_name ← present_of (string_type w rt) "typeName" json
    extendee ← present_of (string_type w rt) "extendee" json
    default_value ← present_of (string_type w rt) "defaultValue" json
    oneof_index ← present_of (int32_type w rt) "oneofIndex" json
    json_name ← present_of (string_type w rt) "jsonName" json
    options ← message_of (FieldOptions.from_json w rt) "options" json
    proto3_optional ← present_of (bool_type w rt false) "proto3Optional" json
    ok (record {
      name = name;
      number = number;
      label = label;
      type = type;
      type_name = type_name;
      extendee = extendee;
      default_value = default_value;
      oneof_index = oneof_index;
      json_name = json_name;
      options = options;
      proto3_optional = proto3_optional;
    })

  unfoldable pub to_json : FieldDescriptorProto → Value
  to_json message = build (
      present_entry (string_type w rt) "name" message.name
      ∷ present_entry (int32_type w rt) "number" message.number
      ∷ present_entry (member_type w rt FieldDescriptorProtoLabel.fns 1) "label" message.label
      ∷ present_entry (member_type w rt FieldDescriptorProtoType.fns 1) "type" message.type
      ∷ present_entry (string_type w rt) "typeName" message.type_name
      ∷ present_entry (string_type w rt) "extendee" message.extendee
      ∷ present_entry (string_type w rt) "defaultValue" message.default_value
      ∷ present_entry (int32_type w rt) "oneofIndex" message.oneof_index
      ∷ present_entry (string_type w rt) "jsonName" message.json_name
      ∷ message_entry (FieldOptions.to_json w rt) "options" message.options
      ∷ present_entry (bool_type w rt false) "proto3Optional" message.proto3_optional
      ∷ [])

unfoldable pub from_partial : FieldDescriptorProtoPartial → FieldDescriptorProto
from_partial object = record {
  name = or_present object.name "";
  number = or_present object.number (pos 0);
  label = or_present object.label (pos 1);
  type = or_present object.type (pos 1);
  type_name = or_present object.type_name "";
  extendee = or_present object.extendee "";
  default_value = or_present object.default_value "";
  oneof_index = or_present object.oneof_index (pos 0);
  json_name = or_present object.json_name "";
  options = map_option FieldOptions.from_partial object.options;
  proto3_optional = or_present object.proto3_optional false;
}

-- The partial message with no property.
abbrev pub empty : FieldDescriptorProtoPartial
empty = record {
  name = none;
  number = none;
  label = none;
  type = none;
  type_name = none;
  extendee = none;
  default_value = none;
  oneof_index = none;
  json_name = none;
  options = none;
  proto3_optional = none;
}

-- create(base?): `base ?? {}`
unfoldable pub create : Option FieldDescriptorProtoPartial → FieldDescriptorProto
unfolding or_else
create object = from_partial (or_else object empty)

-- A message is a partial message.
unfoldable pub embed : FieldDescriptorProto → FieldDescriptorProtoPartial
embed m = record {
  name = m.name;
  number = m.number;
  label = m.label;
  type = m.type;
  type_name = m.type_name;
  extendee = m.extendee;
  default_value = m.default_value;
  oneof_index = m.oneof_index;
  json_name = m.json_name;
  options = map_option FieldOptions.embed m.options;
  proto3_optional = m.proto3_optional;
}

abbrev pub fns : Wire → Runtime → MessageFns FieldDescriptorProto FieldDescriptorProtoPartial
fns w rt = record {
  encode = encode w rt;
  decode = decode w rt;
  from_json = from_json w rt;
  to_json = to_json w rt;
  create = create;
  from_partial = from_partial;
}
