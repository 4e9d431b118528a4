-- ===== src/Descriptor/EnumValueOptions.antt =====
-- EnumValueOptions of gen/ts/google/protobuf/descriptor.ts.
pub mod Laws
use merkle_proof_service.Descriptor.FeatureSet.{FeatureSet, FeatureSetPartial}
use merkle_proof_service.Descriptor.FeatureSet
use merkle_proof_service.Descriptor.FieldOptionsFeatureSupport.{
  FieldOptionsFeatureSupport, FieldOptionsFeatureSupportPartial,
}
use merkle_proof_service.Descriptor.FieldOptionsFeatureSupport
use merkle_proof_service.Descriptor.UninterpretedOption.{
  UninterpretedOption, UninterpretedOptionPartial,
}
use merkle_proof_service.Descriptor.UninterpretedOption
use merkle_proof_service.Message.Statements.{
  Bool, false, Option, none, some, List, [], ◌∷◌, map, Outcome, ok, ◌>>=◌, Wire, Writer, ◌▸◌,
  write_message, write_messages, Case, case_at, Decoder, decode_with, on_message, Value, Runtime,
  message_of, messages_of, message_entry, array_entry, build, or_else, map_option, map_or_empty,
  MessageFns, bool_type, write_present, on_scalar, present_of, present_entry, or_present, store,
  push,
}

pub record EnumValueOptions : Type 0 where
  pub deprecated : Option Bool
  pub features : Option FeatureSet
  pub debug_redact : Option Bool
  pub feature_support : Option FieldOptionsFeatureSupport
  pub uninterpreted_option : List UninterpretedOption

-- DeepPartial<EnumValueOptions>: `none` for a property that is missing or null.
pub record EnumValueOptionsPartial : Type 0 where
  pub deprecated : Option Bool
  pub features : Option FeatureSetPartial
  pub debug_redact : Option Bool
  pub feature_support : Option FieldOptionsFeatureSupportPartial
  pub uninterpreted_option : Option (List UninterpretedOptionPartial)

-- createBaseEnumValueOptions
abbrev pub base : EnumValueOptions
base = record {
  deprecated = some false;
  features = none;
  debug_redact = some false;
  feature_support = none;
  uninterpreted_option = [];
}

module _ (w : Wire) (rt : Runtime) where
  unfoldable pub encode : EnumValueOptions → Writer → Writer
  encode message =
      write_present w (bool_type w rt false) 8 message.deprecated
      ▸ write_message w (FeatureSet.encode w rt) 18 message.features
      ▸ write_present w (bool_type w rt false) 24 message.debug_redact
      ▸ write_message w (FieldOptionsFeatureSupport.encode w rt) 34 message.feature_support
      ▸ write_messages w (UninterpretedOption.encode w rt) 7994 message.uninterpreted_option

  -- The cases of the switch in `decode`.
  abbrev pub cases : List (Case EnumValueOptions)
  cases =
      case_at 1 8 (on_scalar (bool_type w rt false) (store (λ m v. record m { deprecated = v })))
      ∷ case_at 2 18
          (on_message w (FeatureSet.decode w rt) (store (λ m v. record m { features = v })))
      ∷ case_at 3 24
          (on_scalar (bool_type w rt false) (store (λ m v. record m { debug_redact = v })))
      ∷ case_at 4 34 (
          on_message w (FieldOptionsFeatureSupport.decode w rt)
            (store (λ m v. record m { feature_support = v })))
      ∷ case_at 999 7994 (
          on_message w (UninterpretedOption.decode w rt)
            (push (λ m. m.uninterpreted_option) (λ m v. record m { uninterpreted_option = v })))
      ∷ []

  unfoldable pub decode : Decoder EnumValueOptions
  decode = decode_with w cases base

  unfoldable pub from_json : Value → Outcome EnumValueOptions
  from_json json = do
    deprecated ← present_of (bool_type w rt false) "deprecated" json
    features ← message_of (FeatureSet.from_json w rt) "features" json
    debug_redact ← present_of (bool_type w rt false) "debugRedact" json
    feature_support ← message_of (FieldOptionsFeatureSupport.from_json w rt) "featureSupport" json
    uninterpreted_option ←
        messages_of (UninterpretedOption.from_json w rt) "uninterpretedOption" json
    ok (record {
      deprecated = deprecated;
      features = features;
      debug_redact = debug_redact;
      feature_support = feature_support;
      uninterpreted_option = uninterpreted_option;
    })

  unfoldable pub to_json : EnumValueOptions → Value
  to_json message = build (
      present_entry (bool_type w rt false) "deprecated" message.deprecated
      ∷ message_entry (FeatureSet.to_json w rt) "features" message.features
      ∷ present_entry (bool_type w rt false) "debugRedact" message.debug_redact
      ∷ message_entry (FieldOptionsFeatureSupport.to_json w rt) "featureSupport"
          message.feature_support
      ∷ array_entry (UninterpretedOption.to_json w rt) "uninterpretedOption"
          message.uninterpreted_option
      ∷ [])

unfoldable pub from_partial : EnumValueOptionsPartial → EnumValueOptions
from_partial object = record {
  deprecated = or_present object.deprecated false;
  features = map_option FeatureSet.from_partial object.features;
  debug_redact = or_present object.debug_redact false;
  feature_support = map_option FieldOptionsFeatureSupport.from_partial object.feature_support;
  uninterpreted_option = map_or_empty UninterpretedOption.from_partial object.uninterpreted_option;
}

-- The partial message with no property.
abbrev pub empty : EnumValueOptionsPartial
empty = record {
  deprecated = none;
  features = none;
  debug_redact = none;
  feature_support = none;
  uninterpreted_option = none;
}

-- create(base?): `base ?? {}`
unfoldable pub create : Option EnumValueOptionsPartial → EnumValueOptions
unfolding or_else
create object = from_partial (or_else object empty)

-- A message is a partial message.
unfoldable pub embed : EnumValueOptions → EnumValueOptionsPartial
embed m = record {
  deprecated = m.deprecated;
  features = map_option FeatureSet.embed m.features;
  debug_redact = m.debug_redact;
  feature_support = map_option FieldOptionsFeatureSupport.embed m.feature_support;
  uninterpreted_option = some (map UninterpretedOption.embed m.uninterpreted_option);
}

abbrev pub fns : Wire → Runtime → MessageFns EnumValueOptions EnumValueOptionsPartial
fns w rt = record {
  encode = encode w rt;
  decode = decode w rt;
  from_json = from_json w rt;
  to_json = to_json w rt;
  create = create;
  from_partial = from_partial;
}
