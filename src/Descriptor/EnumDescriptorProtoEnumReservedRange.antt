-- ===== src/Descriptor/EnumDescriptorProtoEnumReservedRange.antt =====
-- EnumDescriptorProto_EnumReservedRange of gen/ts/google/protobuf/descriptor.ts.
pub mod Laws
use merkle_proof_service.Message.Statements.{
  ℤ, pos, Option, none, some, List, [], ◌∷◌, Outcome, ok, ◌>>=◌, Wire, Writer, ◌▸◌, Case, case_at,
  Decoder, decode_with, Value, Runtime, build, or_else, MessageFns, int32_type, write_present,
  on_scalar, present_of, present_entry, or_present, store,
}

pub record EnumDescriptorProtoEnumReservedRange : Type 0 where
  pub start : Option ℤ
  pub end : Option ℤ

-- DeepPartial<EnumDescriptorProto_EnumReservedRange>: `none` for a property that is missing or null.
pub record EnumDescriptorProtoEnumReservedRangePartial : Type 0 where
  pub start : Option ℤ
  pub end : Option ℤ

-- createBaseEnumDescriptorProto_EnumReservedRange
abbrev pub base : EnumDescriptorProtoEnumReservedRange
base = record { start = some (pos 0); end = some (pos 0) }

module _ (w : Wire) (rt : Runtime) where
  unfoldable pub encode : EnumDescriptorProtoEnumReservedRange → Writer → Writer
  encode message =
      write_present w (int32_type w rt) 8 message.start
      ▸ write_present w (int32_type w rt) 16 message.end

  -- The cases of the switch in `decode`.
  abbrev pub cases : List (Case EnumDescriptorProtoEnumReservedRange)
  cases =
      case_at 1 8 (on_scalar (int32_type w rt) (store (λ m v. record m { start = v })))
      ∷ case_at 2 16 (on_scalar (int32_type w rt) (store (λ m v. record m { end = v })))
      ∷ []

  unfoldable pub decode : Decoder EnumDescriptorProtoEnumReservedRange
  decode = decode_with w cases base

  unfoldable pub from_json : Value → Outcome EnumDescriptorProtoEnumReservedRange
  from_json json = do
    start ← present_of (int32_type w rt) "start" json
    end ← present_of (int32_type w rt) "end" json
    ok (record { start = start; end = end })

  unfoldable pub to_json : EnumDescriptorProtoEnumReservedRange → Value
  to_json message = build (
      present_entry (int32_type w rt) "start" message.start
      ∷ present_entry (int32_type w rt) "end" message.end
      ∷ [])

unfoldable pub from_partial :
    EnumDescriptorProtoEnumReservedRangePartial → EnumDescriptorProtoEnumReservedRange
from_partial object = record {
  start = or_present object.start (pos 0);
  end = or_present object.end (pos 0);
}

-- The partial message with no property.
abbrev pub empty : EnumDescriptorProtoEnumReservedRangePartial
empty = record { start = none; end = none }

-- create(base?): `base ?? {}`
unfoldable pub create :
    Option EnumDescriptorProtoEnumReservedRangePartial → EnumDescriptorProtoEnumReservedRange
unfolding or_else
create object = from_partial (or_else object empty)

-- A message is a partial message.
unfoldable pub embed :
    EnumDescriptorProtoEnumReservedRange → EnumDescriptorProtoEnumReservedRangePartial
embed m = record { start = m.start; end = m.end }

abbrev pub fns :
    Wire
    → Runtime
    → MessageFns EnumDescriptorProtoEnumReservedRange EnumDescriptorProtoEnumReservedRangePartial
fns w rt = record {
  encode = encode w rt;
  decode = decode w rt;
  from_json = from_json w rt;
  to_json = to_json w rt;
  create = create;
  from_partial = from_partial;
}
