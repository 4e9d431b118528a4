-- ===== src/Descriptor/DescriptorProtoExtensionRange.antt =====
-- DescriptorProto_ExtensionRange of gen/ts/google/protobuf/descriptor.ts.
pub mod Laws
use merkle_proof_service.Descriptor.ExtensionRangeOptions.{
  ExtensionRangeOptions, ExtensionRangeOptionsPartial,
}
use merkle_proof_service.Descriptor.ExtensionRangeOptions
use merkle_proof_service.Message.Statements.{
  ℤ, pos, Option, none, some, List, [], ◌∷◌, Outcome, ok, ◌>>=◌, Wire, Writer, ◌▸◌, write_message,
  Case, case_at, Decoder, decode_with, on_message, Value, Runtime, message_of, message_entry, build,
  or_else, map_option, MessageFns, int32_type, write_present, on_scalar, present_of, present_entry,
  or_present, store,
}

pub record DescriptorProtoExtensionRange : Type 0 where
  pub start : Option ℤ
  pub end : Option ℤ
  pub options : Option ExtensionRangeOptions

-- DeepPartial<DescriptorProto_ExtensionRange>: `none` for a property that is missing or null.
pub record DescriptorProtoExtensionRangePartial : Type 0 where
  pub start : Option ℤ
  pub end : Option ℤ
  pub options : Option ExtensionRangeOptionsPartial

-- createBaseDescriptorProto_ExtensionRange
abbrev pub base : DescriptorProtoExtensionRange
base = record { start = some (pos 0); end = some (pos 0); options = none }

module _ (w : Wire) (rt : Runtime) where
  unfoldable pub encode : DescriptorProtoExtensionRange → Writer → Writer
  encode message =
      write_present w (int32_type w rt) 8 message.start
      ▸ write_present w (int32_type w rt) 16 message.end
      ▸ write_message w (ExtensionRangeOptions.encode w rt) 26 message.options

  -- The cases of the switch in `decode`.
  abbrev pub cases : List (Case DescriptorProtoExtensionRange)
  cases =
      case_at 1 8 (on_scalar (int32_type w rt) (store (λ m v. record m { start = v })))
      ∷ case_at 2 16 (on_scalar (int32_type w rt) (store (λ m v. record m { end = v })))
      ∷ case_at 3 26 (
          on_message w (ExtensionRangeOptions.decode w rt)
            (store (λ m v. record m { options = v })))
      ∷ []

  unfoldable pub decode : Decoder DescriptorProtoExtensionRange
  decode = decode_with w cases base

  unfoldable pub from_json : Value → Outcome DescriptorProtoExtensionRange
  from_json json = do
    start ← present_of (int32_type w rt) "start" json
    end ← present_of (int32_type w rt) "end" json
    options ← message_of (ExtensionRangeOptions.from_json w rt) "options" json
    ok (record { start = start; end = end; options = options })

  unfoldable pub to_json : DescriptorProtoExtensionRange → Value
  to_json message = build (
      present_entry (int32_type w rt) "start" message.start
      ∷ present_entry (int32_type w rt) "end" message.end
      ∷ message_entry (ExtensionRangeOptions.to_json w rt) "options" message.options
      ∷ [])

unfoldable pub from_partial : DescriptorProtoExtensionRangePartial → DescriptorProtoExtensionRange
from_partial object = record {
  start = or_present object.start (pos 0);
  end = or_present object.end (pos 0);
  options = map_option ExtensionRangeOptions.from_partial object.options;
}

-- The partial message with no property.
abbrev pub empty : DescriptorProtoExtensionRangePartial
empty = record { start = none; end = none; options = none }

-- create(base?): `base ?? {}`
unfoldable pub create : Option DescriptorProtoExtensionRangePartial → DescriptorProtoExtensionRange
unfolding or_else
create object = from_partial (or_else object empty)

-- A message is a partial message.
unfoldable pub embed : DescriptorProtoExtensionRange → DescriptorProtoExtensionRangePartial
embed m = record {
  start = m.start;
  end = m.end;
  options = map_option ExtensionRangeOptions.embed m.options;
}

abbrev pub fns :
    Wire → Runtime → MessageFns DescriptorProtoExtensionRange DescriptorProtoExtensionRangePartial
fns w rt = record {
  encode = encode w rt;
  decode = decode w rt;
  from_json = from_json w rt;
  to_json = to_json w rt;
  create = create;
  from_partial = from_partial;
}
