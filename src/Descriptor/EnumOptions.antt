-- ===== src/Descriptor/EnumOptions.antt =====
-- EnumOptions of gen/ts/google/protobuf/descriptor.ts.
pub mod Laws
use merkle_proof_service.Descriptor.FeatureSet.{FeatureSet, FeatureSetPartial}
use merkle_proof_service.Descriptor.FeatureSet
use merkle_proof_service.Descriptor.UninterpretedOption.{
  UninterpretedOption, UninterpretedOptionPartial,
}
use merkle_proof_service.Descriptor.UninterpretedOption
use merkle_proof_service.Message.Statements.{
  Bool, false, Option, none, some, List, [], ◌∷◌, map, Outcome, ok, ◌>>=◌, Wire, Writer, ◌▸◌,
  write_message, write_messages, Case, case_at, Decoder, decode_with, on_message, Value, Runtime,
  message_of, messages_of, message_entry, array_entry, build, or_else, map_option, map_or_empty,
  MessageFns, bool_type, write_present, on_scalar, present_of, present_entry, or_present, store,
  push,
}

pub record EnumOptions : Type 0 where
  pub allow_alias : Option Bool
  pub deprecated : Option Bool
  pub deprecated_legacy_json_field_conflicts : Option Bool
  pub features : Option FeatureSet
  pub uninterpreted_option : List UninterpretedOption

-- DeepPartial<EnumOptions>: `none` for a property that is missing or null.
pub record EnumOptionsPartial : Type 0 where
  pub allow_alias : Option Bool
  pub deprecated : Option Bool
  pub deprecated_legacy_json_field_conflicts : Option Bool
  pub features : Option FeatureSetPartial
  pub uninterpreted_option : Option (List UninterpretedOptionPartial)

-- createBaseEnumOptions
abbrev pub base : EnumOptions
base = record {
  allow_alias = some false;
  deprecated = some false;
  deprecated_legacy_json_field_conflicts = some false;
  features = none;
  uninterpreted_option = [];
}

module _ (w : Wire) (rt : Runtime) where
  unfoldable pub encode : EnumOptions → Writer → Writer
  encode message =
      write_present w (bool_type w rt false) 16 message.allow_alias
      ▸ write_present w (bool_type w rt false) 24 message.deprecated
      ▸ write_present w (bool_type w rt false) 48 message.deprecated_legacy_json_field_conflicts
      ▸ write_message w (FeatureSet.encode w rt) 58 message.features
      ▸ write_messages w (UninterpretedOption.encode w rt) 7994 message.uninterpreted_option

  -- The cases of the switch in `decode`.
  abbrev pub cases : List (Case EnumOptions)
  cases =
      case_at 2 16 (on_scalar (bool_type w rt false) (store (λ m v. record m { allow_alias = v })))
      ∷ case_at 3 24 (on_scalar (bool_type w rt false) (store (λ m v. record m { deprecated = v })))
      ∷ case_at 6 48 (
          on_scalar (bool_type w rt false)
            (store (λ m v. record m { deprecated_legacy_json_field_conflicts = v })))
      ∷ case_at 7 58
          (on_message w (FeatureSet.decode w rt) (store (λ m v. record m { features = v })))
      ∷ case_at 999 7994 (
          on_message w (UninterpretedOption.decode w rt)
            (push (λ m. m.uninterpreted_option) (λ m v. record m { uninterpreted_option = v })))
      ∷ []

  unfoldable pub decode : Decoder EnumOptions
  decode = decode_with w cases base

  unfoldable pub from_json : Value → Outcome EnumOptions
  from_json json = do
    allow_alias ← present_of (bool_type w rt false) "allowAlias" json
    deprecated ← present_of (bool_type w rt false) "deprecated" json
    deprecated_legacy_json_field_conflicts ←
        present_of (bool_type w rt false) "deprecatedLegacyJsonFieldConflicts" json
    features ← message_of (FeatureSet.from_json w rt) "features" json
    uninterpreted_option ←
        messages_of (UninterpretedOption.from_json w rt) "uninterpretedOption" json
    ok (record {
      allow_alias = allow_alias;
      deprecated = deprecated;
      deprecated_legacy_json_field_conflicts = deprecated_legacy_json_field_conflicts;
      features = features;
      uninterpreted_option = uninterpreted_option;
    })

  unfoldable pub to_json : EnumOptions → Value
  to_json message = build (
      present_entry (bool_type w rt false) "allowAlias" message.allow_alias
      ∷ present_entry (bool_type w rt false) "deprecated" message.deprecated
      ∷ present_entry (bool_type w rt false) "deprecatedLegacyJsonFieldConflicts"
          message.deprecated_legacy_json_field_conflicts
      ∷ message_entry (FeatureSet.to_json w rt) "features" message.features
      ∷ array_entry (UninterpretedOption.to_json w rt) "uninterpretedOption"
          message.uninterpreted_option
      ∷ [])

unfoldable pub from_partial : EnumOptionsPartial → EnumOptions
from_partial object = record {
  allow_alias = or_present object.allow_alias false;
  deprecated = or_present object.deprecated false;
  deprecated_legacy_json_field_conflicts =
      or_present object.deprecated_legacy_json_field_conflicts false;
  features = map_option FeatureSet.from_partial object.features;
  uninterpreted_option = map_or_empty UninterpretedOption.from_partial object.uninterpreted_option;
}

-- The partial message with no property.
abbrev pub empty : EnumOptionsPartial
empty = record {
  allow_alias = none;
  deprecated = none;
  deprecated_legacy_json_field_conflicts = none;
  features = none;
  uninterpreted_option = none;
}

-- create(base?): `base ?? {}`
unfoldable pub create : Option EnumOptionsPartial → EnumOptions
unfolding or_else
create object = from_partial (or_else object empty)

-- A message is a partial message.
unfoldable pub embed : EnumOptions → EnumOptionsPartial
embed m = record {
  allow_alias = m.allow_alias;
  deprecated = m.deprecated;
  deprecated_legacy_json_field_conflicts = m.deprecated_legacy_json_field_conflicts;
  features = map_option FeatureSet.embed m.features;
  uninterpreted_option = some (map UninterpretedOption.embed m.uninterpreted_option);
}

abbrev pub fns : Wire → Runtime → MessageFns EnumOptions EnumOptionsPartial
fns w rt = record {
  encode = encode w rt;
  decode = decode w rt;
  from_json = from_json w rt;
  to_json = to_json w rt;
  create = create;
  from_partial = from_partial;
}
