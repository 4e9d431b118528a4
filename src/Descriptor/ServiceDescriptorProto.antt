-- ===== src/Descriptor/ServiceDescriptorProto.antt =====
-- ServiceDescriptorProto of gen/ts/google/protobuf/descriptor.ts.
pub mod Laws
use merkle_proof_service.Descriptor.MethodDescriptorProto.{
  MethodDescriptorProto, MethodDescriptorProtoPartial,
}
use merkle_proof_service.Descriptor.MethodDescriptorProto
use merkle_proof_service.Descriptor.ServiceOptions.{ServiceOptions, ServiceOptionsPartial}
use merkle_proof_service.Descriptor.ServiceOptions
use merkle_proof_service.Message.Statements.{
  String, Option, none, some, List, [], ◌∷◌, map, Outcome, ok, ◌>>=◌, Wire, Writer, ◌▸◌,
  write_message, write_messages, Case, case_at, Decoder, decode_with, on_message, Value, Runtime,
  message_of, messages_of, message_entry, array_entry, build, or_else, map_option, map_or_empty,
  MessageFns, string_type, write_present, on_scalar, present_of, present_entry, or_present, store,
  push,
}

pub record ServiceDescriptorProto : Type 0 where
  pub name : Option String
  pub method : List MethodDescriptorProto
  pub options : Option ServiceOptions

-- DeepPartial<ServiceDescriptorProto>: `none` for a property that is missing or null.
pub record ServiceDescriptorProtoPartial : Type 0 where
  pub name : Option String
  pub method : Option (List MethodDescriptorProtoPartial)
  pub options : Option ServiceOptionsPartial

-- createBaseServiceDescriptorProto
abbrev pub base : ServiceDescriptorProto
base = record { name = some ""; method = []; options = none }

module _ (w : Wire) (rt : Runtime) where
  unfoldable pub encode : ServiceDescriptorProto → Writer → Writer
  encode message =
      write_present w (string_type w rt) 10 message.name
      ▸ write_messages w (MethodDescriptorProto.encode w rt) 18 message.method
      ▸ write_message w (ServiceOptions.encode w rt) 26 message.options

  -- The cases of the switch in `decode`.
  abbrev pub cases : List (Case ServiceDescriptorProto)
  cases =
      case_at 1 10 (on_scalar (string_type w rt) (store (λ m v. record m { name = v })))
      ∷ case_at 2 18 (
          on_message w (MethodDescriptorProto.decode w rt)
            (push (λ m. m.method) (λ m v. record m { method = v })))
      ∷ case_at 3 26
          (on_message w (ServiceOptions.decode w rt) (store (λ m v. record m { options = v })))
      ∷ []

  unfoldable pub decode : Decoder ServiceDescriptorProto
  decode = decode_with w cases base

  unfoldable pub from_json : Value → Outcome ServiceDescriptorProto
  from_json json = do
    name ← present_of (string_type w rt) "name" json
    method ← messages_of (MethodDescriptorProto.from_json w rt) "method" json
    options ← message_of (ServiceOptions.from_json w rt) "options" json
    ok (record { name = name; method = method; options = options })

  unfoldable pub to_json : ServiceDescriptorProto → Value
  to_json message = build (
      present_entry (string_type w rt) "name" message.name
      ∷ array_entry (MethodDescriptorProto.to_json w rt) "method" message.method
      ∷ message_entry (ServiceOptions.to_json w rt) "options" message.options
      ∷ [])

unfoldable pub from_partial : ServiceDescriptorProtoPartial → ServiceDescriptorProto
from_partial object = record {
  name = or_present object.name "";
  method = map_or_empty MethodDescriptorProto.from_partial object.method;
  options = map_option ServiceOptions.from_partial object.options;
}

-- The partial message with no property.
abbrev pub empty : ServiceDescriptorProtoPartial
empty = record { name = none; method = none; options = none }

-- create(base?): `base ?? {}`
unfoldable pub create : Option ServiceDescriptorProtoPartial → ServiceDescriptorProto
unfolding or_else
create object = from_partial (or_else object empty)

-- A message is a partial message.
unfoldable pub embed : ServiceDescriptorProto → ServiceDescriptorProtoPartial
embed m = record {
  name = m.name;
  method = some (map MethodDescriptorProto.embed m.method);
  options = map_option ServiceOptions.embed m.options;
}

abbrev pub fns : Wire → Runtime → MessageFns ServiceDescriptorProto ServiceDescriptorProtoPartial
fns w rt = record {
  encode = encode w rt;
  decode = decode w rt;
  from_json = from_json w rt;
  to_json = to_json w rt;
  create = create;
  from_partial = from_partial;
}
