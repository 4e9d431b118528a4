-- ===== src/Descriptor/OneofDescriptorProto.antt =====
-- OneofDescriptorProto of gen/ts/google/protobuf/descriptor.ts.
pub mod Laws
use merkle_proof_service.Descriptor.OneofOptions.{OneofOptions, OneofOptionsPartial}
use merkle_proof_service.Descriptor.OneofOptions
use merkle_proof_service.Message.Statements.{
  String, Option, none, some, List, [], ◌∷◌, Outcome, ok, ◌>>=◌, Wire, Writer, ◌▸◌, write_message,
  Case, case_at, Decoder, decode_with, on_message, Value, Runtime, message_of, message_entry, build,
  or_else, map_option, MessageFns, string_type, write_present, on_scalar, present_of, present_entry,
  or_present, store,
}

pub record OneofDescriptorProto : Type 0 where
  pub name : Option String
  pub options : Option OneofOptions

-- DeepPartial<OneofDescriptorProto>: `none` for a property that is missing or null.
pub record OneofDescriptorProtoPartial : Type 0 where
  pub name : Option String
  pub options : Option OneofOptionsPartial

-- createBaseOneofDescriptorProto
abbrev pub base : OneofDescriptorProto
base = record { name = some ""; options = none }

module _ (w : Wire) (rt : Runtime) where
  unfoldable pub encode : OneofDescriptorProto → Writer → Writer
  encode message =
      write_present w (string_type w rt) 10 message.name
      ▸ write_message w (OneofOptions.encode w rt) 18 message.options

  -- The cases of the switch in `decode`.
  abbrev pub cases : List (Case OneofDescriptorProto)
  cases =
      case_at 1 10 (on_scalar (string_type w rt) (store (λ m v. record m { name = v })))
      ∷ case_at 2 18
          (on_message w (OneofOptions.decode w rt) (store (λ m v. record m { options = v })))
      ∷ []

  unfoldable pub decode : Decoder OneofDescriptorProto
  decode = decode_with w cases base

  unfoldable pub from_json : Value → Outcome OneofDescriptorProto
  from_json json = do
    name ← present_of (string_type w rt) "name" json
    options ← message_of (OneofOptions.from_json w rt) "options" json
    ok (record { name = name; options = options })

  unfoldable pub to_json : OneofDescriptorProto → Value
  to_json message = build (
      present_entry (string_type w rt) "name" message.name
      ∷ message_entry (OneofOptions.to_json w rt) "options" message.options
      ∷ [])

unfoldable pub from_partial : OneofDescriptorProtoPartial → OneofDescriptorProto
from_partial object = record {
  name = or_present object.name "";
  options = map_option OneofOptions.from_partial object.options;
}

-- The partial message with no property.
abbrev pub empty : OneofDescriptorProtoPartial
empty = record { name = none; options = none }

-- create(base?): `base ?? {}`
unfoldable pub create : Option OneofDescriptorProtoPartial → OneofDescriptorProto
unfolding or_else
create object = from_partial (or_else object empty)

-- A message is a partial message.
unfoldable pub embed : OneofDescriptorProto → OneofDescriptorProtoPartial
embed m = record { name = m.name; options = map_option OneofOptions.embed m.options }

abbrev pub fns : Wire → Runtime → MessageFns OneofDescriptorProto OneofDescriptorProtoPartial
fns w rt = record {
  encode = encode w rt;
  decode = decode w rt;
  from_json = from_json w rt;
  to_json = to_json w rt;
  create = create;
  from_partial = from_partial;
}
