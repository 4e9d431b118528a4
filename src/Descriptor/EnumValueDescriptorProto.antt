-- ===== src/Descriptor/EnumValueDescriptorProto.antt =====
-- EnumValueDescriptorProto of gen/ts/google/protobuf/descriptor.ts.
pub mod Laws
use merkle_proof_service.Descriptor.EnumValueOptions.{EnumValueOptions, EnumValueOptionsPartial}
use merkle_proof_service.Descriptor.EnumValueOptions
use merkle_proof_service.Message.Statements.{
  ℤ, pos, String, Option, none, some, List, [], ◌∷◌, Outcome, ok, ◌>>=◌, Wire, Writer, ◌▸◌,
  write_message, Case, case_at, Decoder, decode_with, on_message, Value, Runtime, message_of,
  message_entry, build, or_else, map_option, MessageFns, string_type, int32_type, write_present,
  on_scalar, present_of, present_entry, or_present, store,
}

pub record EnumValueDescriptorProto : Type 0 where
  pub name : Option String
  pub number : Option ℤ
  pub options : Option EnumValueOptions

-- DeepPartial<EnumValueDescriptorProto>: `none` for a property that is missing or null.
pub record EnumValueDescriptorProtoPartial : Type 0 where
  pub name : Option String
  pub number : Option ℤ
  pub options : Option EnumValueOptionsPartial

-- createBaseEnumValueDescriptorProto
abbrev pub base : EnumValueDescriptorProto
base = record { name = some ""; number = some (pos 0); options = none }

module _ (w : Wire) (rt : Runtime) where
  unfoldable pub encode : EnumValueDescriptorProto → Writer → Writer
  encode message =
      write_present w (string_type w rt) 10 message.name
      ▸ write_present w (int32_type w rt) 16 message.number
      ▸ write_message w (EnumValueOptions.encode w rt) 26 message.options

  -- The cases of the switch in `decode`.
  abbrev pub cases : List (Case EnumValueDescriptorProto)
  cases =
      case_at 1 10 (on_scalar (string_type w rt) (store (λ m v. record m { name = v })))
      ∷ case_at 2 16 (on_scalar (int32_type w rt) (store (λ m v. record m { number = v })))
      ∷ case_at 3 26
          (on_message w (EnumValueOptions.decode w rt) (store (λ m v. record m { options = v })))
      ∷ []

  unfoldable pub decode : Decoder EnumValueDescriptorProto
  decode = decode_with w cases base

  unfoldable pub from_json : Value → Outcome EnumValueDescriptorProto
  from_json json = do
    name ← present_of (string_type w rt) "name" json
    number ← present_of (int32_type w rt) "number" json
    options ← message_of (EnumValueOptions.from_json w rt) "options" json
    ok (record { name = name; number = number; options = options })

  unfoldable pub to_json : EnumValueDescriptorProto → Value
  to_json message = build (
      present_entry (string_type w rt) "name" message.name
      ∷ present_entry (int32_type w rt) "number" message.number
      ∷ message_entry (EnumValueOptions.to_json w rt) "options" message.options
      ∷ [])

unfoldable pub from_partial : EnumValueDescriptorProtoPartial → EnumValueDescriptorProto
from_partial object = record {
  name = or_present object.name "";
  number = or_present object.number (pos 0);
  options = map_option EnumValueOptions.from_partial object.options;
}

-- The partial message with no property.
abbrev pub empty : EnumValueDescriptorProtoPartial
empty = record { name = none; number = none; options = none }

-- create(base?): `base ?? {}`
unfoldable pub create : Option EnumValueDescriptorProtoPartial → EnumValueDescriptorProto
unfolding or_else
create object = from_partial (or_else object empty)

-- A message is a partial message.
unfoldable pub embed : EnumValueDescriptorProto → EnumValueDescriptorProtoPartial
embed m = record {
  name = m.name;
  number = m.number;
  options = map_option EnumValueOptions.embed m.options;
}

abbrev pub fns :
    Wire → Runtime → MessageFns EnumValueDescriptorProto EnumValueDescriptorProtoPartial
fns w rt = record {
  encode = encode w rt;
  decode = decode w rt;
  from_json = from_json w rt;
  to_json = to_json w rt;
  create = create;
  from_partial = from_partial;
}
