-- ===== src/Descriptor/MethodDescriptorProto.antt =====
-- MethodDescriptorProto of gen/ts/google/protobuf/descriptor.ts.
pub mod Laws
use merkle_proof_service.Descriptor.MethodOptions.{MethodOptions, MethodOptionsPartial}
use merkle_proof_service.Descriptor.MethodOptions
use merkle_proof_service.Message.Statements.{
  String, Bool, false, Option, none, some, List, [], ◌∷◌, Outcome, ok, ◌>>=◌, Wire, Writer, ◌▸◌,
  write_message, Case, case_at, Decoder, decode_with, on_message, Value, Runtime, message_of,
  message_entry, build, or_else, map_option, MessageFns, string_type, bool_type, write_present,
  on_scalar, present_of, present_entry, or_present, store,
}

pub record MethodDescriptorProto : Type 0 where
  pub name : Option String
  pub input_type : Option String
  pub output_type : Option String
  pub options : Option MethodOptions
  pub client_streaming : Option Bool
  pub server_streaming : Option Bool

-- DeepPartial<MethodDescriptorProto>: `none` for a property that is missing or null.
pub record MethodDescriptorProtoPartial : Type 0 where
  pub name : Option String
  pub input_type : Option String
  pub output_type : Option String
  pub options : Option MethodOptionsPartial
  pub client_streaming : Option Bool
  pub server_streaming : Option Bool

-- createBaseMethodDescriptorProto
abbrev pub base : MethodDescriptorProto
base = record {
  name = some "";
  input_type = some "";
  output_type = some "";
  options = none;
  client_streaming = some false;
  server_streaming = some false;
}

module _ (w : Wire) (rt : Runtime) where
  unfoldable pub encode : MethodDescriptorProto → Writer → Writer
  encode message =
      write_present w (string_type w rt) 10 message.name
      ▸ write_present w (string_type w rt) 18 message.input_type
      ▸ write_present w (string_type w rt) 26 message.output_type
      ▸ write_message w (MethodOptions.encode w rt) 34 message.options
      ▸ write_present w (bool_type w rt false) 40 message.client_streaming
      ▸ write_present w (bool_type w rt false) 48 message.server_streaming

  -- The cases of the switch in `decode`.
  abbrev pub cases : List (Case MethodDescriptorProto)
  cases =
      case_at 1 10 (on_scalar (string_type w rt) (store (λ m v. record m { name = v })))
      ∷ case_at 2 18 (on_scalar (string_type w rt) (store (λ m v. record m { input_type = v })))
      ∷ case_at 3 26 (on_scalar (string_type w rt) (store (λ m v. record m { output_type = v })))
      ∷ case_at 4 34
          (on_message w (MethodOptions.decode w rt) (store (λ m v. record m { options = v })))
      ∷ case_at 5 40
          (on_scalar (bool_type w rt false) (store (λ m v. record m { client_streaming = v })))
      ∷ case_at 6 48
          (on_scalar (bool_type w rt false) (store (λ m v. record m { server_streaming = v })))
      ∷ []

  unfoldable pub decode : Decoder MethodDescriptorProto
  decode = decode_with w cases base

  unfoldable pub from_json : Value → Outcome MethodDescriptorProto
  from_json json = do
    name ← present_of (string_type w rt) "name" json
    input_type ← present_of (string_type w rt) "inputType" json
    output_type ← present_of (string_type w rt) "outputType" json
    options ← message_of (MethodOptions.from_json w rt) "options" json
    client_streaming ← present_of (bool_type w rt false) "clientStreaming" json
    server_streaming ← present_of (bool_type w rt false) "serverStreaming" json
    ok (record {
      name = name;
      input_type = input_type;
      output_type = output_type;
      options = options;
      client_streaming = client_streaming;
      server_streaming = server_streaming;
    })

  unfoldable pub to_json : MethodDescriptorProto → Value
  to_json message = build (
      present_entry (string_type w rt) "name" message.name
      ∷ present_entry (string_type w rt) "inputType" message.input_type
      ∷ present_entry (string_type w rt) "outputType" message.output_type
      ∷ message_entry (MethodOptions.to_json w rt) "options" message.options
      ∷ present_entry (bool_type w rt false) "clientStreaming" message.client_streaming
      ∷ present_entry (bool_type w rt false) "serverStreaming" message.server_streaming
      ∷ [])

unfoldable pub from_partial : MethodDescriptorProtoPartial → MethodDescriptorProto
from_partial object = record {
  name = or_present object.name "";
  input_type = or_present object.input_type "";
  output_type = or_present object.output_type "";
  options = map_option MethodOptions.from_partial object.options;
  client_streaming = or_present object.client_streaming false;
  server_streaming = or_present object.server_streaming false;
}

-- The partial message with no property.
abbrev pub empty : MethodDescriptorProtoPartial
empty = record {
  name = none;
  input_type = none;
  output_type = none;
  options = none;
  client_streaming = none;
  server_streaming = none;
}

-- create(base?): `base ?? {}`
unfoldable pub create : Option MethodDescriptorProtoPartial → MethodDescriptorProto
unfolding or_else
create object = from_partial (or_else object empty)

-- A message is a partial message.
unfoldable pub embed : MethodDescriptorProto → MethodDescriptorProtoPartial
embed m = record {
  name = m.name;
  input_type = m.input_type;
  output_type = m.output_type;
  options = map_option MethodOptions.embed m.options;
  client_streaming = m.client_streaming;
  server_streaming = m.server_streaming;
}

abbrev pub fns : Wire → Runtime → MessageFns MethodDescriptorProto MethodDescriptorProtoPartial
fns w rt = record {
  encode = encode w rt;
  decode = decode w rt;
  from_json = from_json w rt;
  to_json = to_json w rt;
  create = create;
  from_partial = from_partial;
}
