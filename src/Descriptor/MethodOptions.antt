-- ===== src/Descriptor/MethodOptions.antt =====
-- MethodOptions of gen/ts/google/protobuf/descriptor.ts.
pub mod Laws
use merkle_proof_service.Descriptor.FeatureSet.{FeatureSet, FeatureSetPartial}
use merkle_proof_service.Descriptor.FeatureSet
use merkle_proof_service.Descriptor.UninterpretedOption.{
  UninterpretedOption, UninterpretedOptionPartial,
}
use merkle_proof_service.Descriptor.UninterpretedOption
use merkle_proof_service.Descriptor.Enums.MethodOptionsIdempotencyLevel
use merkle_proof_service.Message.Statements.{
  ℤ, pos, Bool, false, Option, none, some, List, [], ◌∷◌, map, Outcome, ok, ◌>>=◌, Wire, Writer,
  ◌▸◌, write_message, write_messages, Case, case_at, Decoder, decode_with, on_message, Value,
  Runtime, message_of, messages_of, message_entry, array_entry, build, or_else, map_option,
  map_or_empty, MessageFns, bool_type, member_type, write_present, on_scalar, present_of,
  present_entry, or_present, store, push,
}

pub record MethodOptions : Type 0 where
  pub deprecated : Option Bool
  pub idempotency_level : Option ℤ
  pub features : Option FeatureSet
  pub uninterpreted_option : List UninterpretedOption

-- DeepPartial<MethodOptions>: `none` for a property that is missing or null.
pub record MethodOptionsPartial : Type 0 where
  pub deprecated : Option Bool
  pub idempotency_level : Option ℤ
  pub features : Option FeatureSetPartial
  pub uninterpreted_option : Option (List UninterpretedOptionPartial)

-- createBaseMethodOptions
abbrev pub base : MethodOptions
base = record {
  deprecated = some false;
  idempotency_level = some (pos 0);
  features = none;
  uninterpreted_option = [];
}

module _ (w : Wire) (rt : Runtime) where
  unfoldable pub encode : MethodOptions → Writer → Writer
  encode message =
      write_present w (bool_type w rt false) 264 message.deprecated
      ▸ write_present w (member_type w rt MethodOptionsIdempotencyLevel.fns 0) 272
          message.idempotency_level
      ▸ write_message w (FeatureSet.encode w rt) 282 message.features
      ▸ write_messages w (UninterpretedOption.encode w rt) 7994 message.uninterpreted_option

  -- The cases of the switch in `decode`.
  abbrev pub cases : List (Case MethodOptions)
  cases =
      case_at 33 264 (on_scalar (bool_type w rt false) (store (λ m v. record m { deprecated = v })))
      ∷ case_at 34 272 (
          on_scalar (member_type w rt MethodOptionsIdempotencyLevel.fns 0)
            (store (λ m v. record m { idempotency_level = v })))
      ∷ case_at 35 282
          (on_message w (FeatureSet.decode w rt) (store (λ m v. record m { features = v })))
      ∷ case_at 999 7994 (
          on_message w (UninterpretedOption.decode w rt)
            (push (λ m. m.uninterpreted_option) (λ m v. record m { uninterpreted_option = v })))
      ∷ []

  unfoldable pub decode : Decoder MethodOptions
  decode = decode_with w cases base

  unfoldable pub from_json : Value → Outcome MethodOptions
  from_json json = do
    deprecated ← present_of (bool_type w rt false) "deprecated" json
    idempotency_level ←
        present_of (member_type w rt MethodOptionsIdempotencyLevel.fns 0) "idempotencyLevel" json
    features ← message_of (FeatureSet.from_json w rt) "features" json
    uninterpreted_option ←
        messages_of (UninterpretedOption.from_json w rt) "uninterpretedOption" json
    ok (record {
      deprecated = deprecated;
      idempotency_level = idempotency_level;
      features = features;
      uninterpreted_option = uninterpreted_option;
    })

  unfoldable pub to_json : MethodOptions → Value
  to_json message = build (
      present_entry (bool_type w rt false) "deprecated" message.deprecated
      ∷ present_entry (member_type w rt MethodOptionsIdempotencyLevel.fns 0) "idempotencyLevel"
          message.idempotency_level
      ∷ message_entry (FeatureSet.to_json w rt) "features" message.features
      ∷ array_entry (UninterpretedOption.to_json w rt) "uninterpretedOption"
          message.uninterpreted_option
      ∷ [])

unfoldable pub from_partial : MethodOptionsPartial → MethodOptions
from_partial object = record {
  deprecated = or_present object.deprecated false;
  idempotency_level = or_present object.idempotency_level (pos 0);
  features = map_option FeatureSet.from_partial object.features;
  uninterpreted_option = map_or_empty UninterpretedOption.from_partial object.uninterpreted_option;
}

-- The partial message with no property.
abbrev pub empty : MethodOptionsPartial
empty = record {
  deprecated = none;
  idempotency_level = none;
  features = none;
  uninterpreted_option = none;
}

-- create(base?): `base ?? {}`
unfoldable pub create : Option MethodOptionsPartial → MethodOptions
unfolding or_else
create object = from_partial (or_else object empty)

-- A message is a partial message.
unfoldable pub embed : MethodOptions → MethodOptionsPartial
embed m = record {
  deprecated = m.deprecated;
  idempotency_level = m.idempotency_level;
  features = map_option FeatureSet.embed m.features;
  uninterpreted_option = some (map UninterpretedOption.embed m.uninterpreted_option);
}

abbrev pub fns : Wire → Runtime → MessageFns MethodOptions MethodOptionsPartial
fns w rt = record {
  encode = encode w rt;
  decode = decode w rt;
  from_json = from_json w rt;
  to_json = to_json w rt;
  create = create;
  from_partial = from_partial;
}
