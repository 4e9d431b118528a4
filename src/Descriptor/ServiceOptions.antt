-- ===== src/Descriptor/ServiceOptions.antt =====
-- ServiceOptions of gen/ts/google/protobuf/descriptor.ts.
pub mod Laws
use merkle_proof_service.Descriptor.FeatureSet.{FeatureSet, FeatureSetPartial}
use merkle_proof_service.Descriptor.FeatureSet
use merkle_proof_service.Descriptor.UninterpretedOption.{
  UninterpretedOption, UninterpretedOptionPartial,
}
use merkle_proof_service.Descriptor.UninterpretedOption
use merkle_proof_service.Message.Statements.{
  Bool, false, Option, none, some, List, [], ◌∷◌, map, Outcome, ok, ◌>>=◌, Wire, Writer, ◌▸◌,
  write_message, write_messages, Case, case_at, Decoder, decode_with, on_message, Value, Runtime,
  message_of, messages_of, message_entry, array_entry, build, or_else, map_option, map_or_empty,
  MessageFns, bool_type, write_present, on_scalar, present_of, present_entry, or_present, store,
  push,
}

pub record ServiceOptions : Type 0 where
  pub features : Option FeatureSet
  pub deprecated : Option Bool
  pub uninterpreted_option : List UninterpretedOption

-- DeepPartial<ServiceOptions>: `none` for a property that is missing or null.
pub record ServiceOptionsPartial : Type 0 where
  pub features : Option FeatureSetPartial
  pub deprecated : Option Bool
  pub uninterpreted_option : Option (List UninterpretedOptionPartial)

-- createBaseServiceOptions
abbrev pub base : ServiceOptions
base = record { features = none; deprecated = some false; uninterpreted_option = [] }

module _ (w : Wire) (rt : Runtime) where
  unfoldable pub encode : ServiceOptions → Writer → Writer
  encode message =
      write_message w (FeatureSet.encode w rt) 274 message.features
      ▸ write_present w (bool_type w rt false) 264 message.deprecated
      ▸ write_messages w (UninterpretedOption.encode w rt) 7994 message.uninterpreted_option

  -- The cases of the switch in `decode`.
  abbrev pub cases : List (Case ServiceOptions)
  cases =
      case_at 34 274
        (on_message w (FeatureSet.decode w rt) (store (λ m v. record m { features = v })))
      ∷ case_at 33 264
          (on_scalar (bool_type w rt false) (store (λ m v. record m { deprecated = v })))
      ∷ case_at 999 7994 (
          on_message w (UninterpretedOption.decode w rt)
            (push (λ m. m.uninterpreted_option) (λ m v. record m { uninterpreted_option = v })))
      ∷ []

  unfoldable pub decode : Decoder ServiceOptions
  decode = decode_with w cases base

  unfoldable pub from_json : Value → Outcome ServiceOptions
  from_json json = do
    features ← message_of (FeatureSet.from_json w rt) "features" json
    deprecated ← present_of (bool_type w rt false) "deprecated" json
    uninterpreted_option ←
        messages_of (UninterpretedOption.from_json w rt) "uninterpretedOption" json
    ok (record {
      features = features;
      deprecated = deprecated;
      uninterpreted_option = uninterpreted_option;
    })

  unfoldable pub to_json : ServiceOptions → Value
  to_json message = build (
      message_entry (FeatureSet.to_json w rt) "features" message.features
      ∷ present_entry (bool_type w rt false) "deprecated" message.deprecated
      ∷ array_entry (UninterpretedOption.to_json w rt) "uninterpretedOption"
          message.uninterpreted_option
      ∷ [])

unfoldable pub from_partial : ServiceOptionsPartial → ServiceOptions
from_partial object = record {
  features = map_option FeatureSet.from_partial object.features;
  deprecated = or_present object.deprecated false;
  uninterpreted_option = map_or_empty UninterpretedOption.from_partial object.uninterpreted_option;
}

-- The partial message with no property.
abbrev pub empty : ServiceOptionsPartial
empty = record { features = none; deprecated = none; uninterpreted_option = none }

-- create(base?): `base ?? {}`
unfoldable pub create : Option ServiceOptionsPartial → ServiceOptions
unfolding or_else
create object = from_partial (or_else object empty)

-- A message is a partial message.
unfoldable pub embed : ServiceOptions → ServiceOptionsPartial
embed m = record {
  features = map_option FeatureSet.embed m.features;
  deprecated = m.deprecated;
  uninterpreted_option = some (map UninterpretedOption.embed m.uninterpreted_option);
}

abbrev pub fns : Wire → Runtime → MessageFns ServiceOptions ServiceOptionsPartial
fns w rt = record {
  encode = encode w rt;
  decode = decode w rt;
  from_json = from_json w rt;
  to_json = to_json w rt;
  create = create;
  from_partial = from_partial;
}
