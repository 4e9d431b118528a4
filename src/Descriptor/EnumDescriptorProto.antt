-- ===== src/Descriptor/EnumDescriptorProto.antt =====
-- EnumDescriptorProto of gen/ts/google/protobuf/descriptor.ts.
pub mod Laws
use merkle_proof_service.Descriptor.EnumDescriptorProtoEnumReservedRange.{
  EnumDescriptorProtoEnumReservedRange, EnumDescriptorProtoEnumReservedRangePartial,
}
use merkle_proof_service.Descriptor.EnumDescriptorProtoEnumReservedRange
use merkle_proof_service.Descriptor.EnumOptions.{EnumOptions, EnumOptionsPartial}
use merkle_proof_service.Descriptor.EnumOptions
use merkle_proof_service.Descriptor.EnumValueDescriptorProto.{
  EnumValueDescriptorProto, EnumValueDescriptorProtoPartial,
}
use merkle_proof_service.Descriptor.EnumValueDescriptorProto
use merkle_proof_service.Descriptor.Enums.SymbolVisibility
use merkle_proof_service.Message.Statements.{
  ℤ, pos, String, Option, none, some, List, [], ◌∷◌, map, Outcome, ok, ◌>>=◌, Wire, Writer, ◌▸◌,
  write_strings, write_message, write_messages, Case, case_at, Decoder, decode_with, on_string,
  on_message, string, Value, Runtime, strings_of, message_of, messages_of, message_entry,
  array_entry, build, or_else, map_option, map_or_empty, MessageFns, string_type, member_type,
  write_present, on_scalar, present_of, present_entry, or_present, store, push,
}

pub record EnumDescriptorProto : Type 0 where
  pub name : Option String
  pub value : List EnumValueDescriptorProto
  pub options : Option EnumOptions
  pub reserved_range : List EnumDescriptorProtoEnumReservedRange
  pub reserved_name : List String
  pub visibility : Option ℤ

-- DeepPartial<EnumDescriptorProto>: `none` for a property that is missing or null.
pub record EnumDescriptorProtoPartial : Type 0 where
  pub name : Option String
  pub value : Option (List EnumValueDescriptorProtoPartial)
  pub options : Option EnumOptionsPartial
  pub reserved_range : Option (List EnumDescriptorProtoEnumReservedRangePartial)
  pub reserved_name : Option (List String)
  pub visibility : Option ℤ

-- createBaseEnumDescriptorProto
abbrev pub base : EnumDescriptorProto
base = record {
  name = some "";
  value = [];
  options = none;
  reserved_range = [];
  reserved_name = [];
  visibility = some (pos 0);
}

module _ (w : Wire) (rt : Runtime) where
  unfoldable pub encode : EnumDescriptorProto → Writer → Writer
  encode message =
      write_present w (string_type w rt) 10 message.name
      ▸ write_messages w (EnumValueDescriptorProto.encode w rt) 18 message.value
      ▸ write_message w (EnumOptions.encode w rt) 26 message.options
      ▸ write_messages w (EnumDescriptorProtoEnumReservedRange.encode w rt) 34
          message.reserved_range
      ▸ write_strings w 42 message.reserved_name
      ▸ write_present w (member_type w rt SymbolVisibility.fns 0) 48 message.visibility

  -- The cases of the switch in `decode`.
  abbrev pub cases : List (Case EnumDescriptorProto)
  cases =
      case_at 1 10 (on_scalar (string_type w rt) (store (λ m v. record m { name = v })))
      ∷ case_at 2 18 (
          on_message w (EnumValueDescriptorProto.decode w rt)
            (push (λ m. m.value) (λ m v. record m { value = v })))
      ∷ case_at 3 26
          (on_message w (EnumOptions.decode w rt) (store (λ m v. record m { options = v })))
      ∷ case_at 4 34 (
          on_message w (EnumDescriptorProtoEnumReservedRange.decode w rt)
            (push (λ m. m.reserved_range) (λ m v. record m { reserved_range = v })))
      ∷ case_at 5 42
          (on_string w (push (λ m. m.reserved_name) (λ m v. record m { reserved_name = v })))
      ∷ case_at 6 48 (
          on_scalar (member_type w rt SymbolVisibility.fns 0)
            (store (λ m v. record m { visibility = v })))
      ∷ []

  unfoldable pub decode : Decoder EnumDescriptorProto
  decode = decode_with w cases base

  unfoldable pub from_json : Value → Outcome EnumDescriptorProto
  from_json json = do
    name ← present_of (string_type w rt) "name" json
    value ← messages_of (EnumValueDescriptorProto.from_json w rt) "value" json
    options ← message_of (EnumOptions.from_json w rt) "options" json
    reserved_range ←
        messages_of (EnumDescriptorProtoEnumReservedRange.from_json w rt) "reservedRange" json
    let reserved_name = strings_of rt "reservedName" json
    visibility ← present_of (member_type w rt SymbolVisibility.fns 0) "visibility" json
    ok (record {
      name = name;
      value = value;
      options = options;
      reserved_range = reserved_range;
      reserved_name = reserved_name;
      visibility = visibility;
    })

  unfoldable pub to_json : EnumDescriptorProto → Value
  to_json message = build (
      present_entry (string_type w rt) "name" message.name
      ∷ array_entry (EnumValueDescriptorProto.to_json w rt) "value" message.value
      ∷ message_entry (EnumOptions.to_json w rt) "options" message.options
      ∷ array_entry (EnumDescriptorProtoEnumReservedRange.to_json w rt) "reservedRange"
          message.reserved_range
      ∷ array_entry string "reservedName" message.reserved_name
      ∷ present_entry (member_type w rt SymbolVisibility.fns 0) "visibility" message.visibility
      ∷ [])

unfoldable pub from_partial : EnumDescriptorProtoPartial → EnumDescriptorProto
from_partial object = record {
  name = or_present object.name "";
  value = map_or_empty EnumValueDescriptorProto.from_partial object.value;
  options = map_option EnumOptions.from_partial object.options;
  reserved_range =
      map_or_empty EnumDescriptorProtoEnumReservedRange.from_partial object.reserved_range;
  reserved_name = map_or_empty (λ e. e) object.reserved_name;
  visibility = or_present object.visibility (pos 0);
}

-- The partial message with no property.
abbrev pub empty : EnumDescriptorProtoPartial
empty = record {
  name = none;
  value = none;
  options = none;
  reserved_range = none;
  reserved_name = none;
  visibility = none;
}

-- create(base?): `base ?? {}`
unfoldable pub create : Option EnumDescriptorProtoPartial → EnumDescriptorProto
unfolding or_else
create object = from_partial (or_else object empty)

-- A message is a partial message.
unfoldable pub embed : EnumDescriptorProto → EnumDescriptorProtoPartial
embed m = record {
  name = m.name;
  value = some (map EnumValueDescriptorProto.embed m.value);
  options = map_option EnumOptions.embed m.options;
  reserved_range = some (map EnumDescriptorProtoEnumReservedRange.embed m.reserved_range);
  reserved_name = some m.reserved_name;
  visibility = m.visibility;
}

abbrev pub fns : Wire → Runtime → MessageFns EnumDescriptorProto EnumDescriptorProtoPartial
fns w rt = record {
  encode = encode w rt;
  decode = decode w rt;
  from_json = from_json w rt;
  to_json = to_json w rt;
  create = create;
  from_partial = from_partial;
}
