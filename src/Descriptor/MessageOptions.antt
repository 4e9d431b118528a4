-- ===== src/Descriptor/MessageOptions.antt =====
-- MessageOptions of gen/ts/google/protobuf/descriptor.ts.
pub mod Laws
use merkle_proof_service.Descriptor.FeatureSet.{FeatureSet, FeatureSetPartial}
use merkle_proof_service.Descriptor.FeatureSet
use merkle_proof_service.Descriptor.UninterpretedOption.{
  UninterpretedOption, UninterpretedOptionPartial,
}
use merkle_proof_service.Descriptor.UninterpretedOption
use merkle_proof_service.Message.Statements.{
  Bool, false, Option, none, some, List, [], ◌∷◌, map, Outcome, ok, ◌>>=◌, Wire, Writer, ◌▸◌,
  write_message, write_messages, Case, case_at, Decoder, decode_with, on_message, Value, Runtime,
  message_of, messages_of, message_entry, array_entry, build, or_else, map_option, map_or_empty,
  MessageFns, bool_type, write_present, on_scalar, present_of, present_entry, or_present, store,
  push,
}

pub record MessageOptions : Type 0 where
  pub message_set_wire_format : Option Bool
  pub no_standard_descriptor_accessor : Option Bool
  pub deprecated : Option Bool
  pub map_entry : Option Bool
  pub deprecated_legacy_json_field_conflicts : Option Bool
  pub features : Option FeatureSet
  pub uninterpreted_option : List UninterpretedOption

-- DeepPartial<MessageOptions>: `none` for a property that is missing or null.
pub record MessageOptionsPartial : Type 0 where
  pub message_set_wire_format : Option Bool
  pub no_standard_descriptor_accessor : Option Bool
  pub deprecated : Option Bool
  pub map_entry : Option Bool
  pub deprecated_legacy_json_field_conflicts : Option Bool
  pub features : Option FeatureSetPartial
  pub uninterpreted_option : Option (List UninterpretedOptionPartial)

-- createBaseMessageOptions
abbrev pub base : MessageOptions
base = record {
  message_set_wire_format = some false;
  no_standard_descriptor_accessor = some false;
  deprecated = some false;
  map_entry = some false;
  deprecated_legacy_json_field_conflicts = some false;
  features = none;
  uninterpreted_option = [];
}

module _ (w : Wire) (rt : Runtime) where
  unfoldable pub encode : MessageOptions → Writer → Writer
  encode message =
      write_present w (bool_type w rt false) 8 message.message_set_wire_format
      ▸ write_present w (bool_type w rt false) 16 message.no_standard_descriptor_accessor
      ▸ write_present w (bool_type w rt false) 24 message.deprecated
      ▸ write_present w (bool_type w rt false) 56 message.map_entry
      ▸ write_present w (bool_type w rt false) 88 message.deprecated_legacy_json_field_conflicts
      ▸ write_message w (FeatureSet.encode w rt) 98 message.features
      ▸ write_messages w (UninterpretedOption.encode w rt) 7994 message.uninterpreted_option

  -- The cases of the switch in `decode`.
  abbrev pub cases : List (Case MessageOptions)
  cases =
      case_at 1 8
        (on_scalar (bool_type w rt false) (store (λ m v. record m { message_set_wire_format = v })))
      ∷ case_at 2 16 (
          on_scalar (bool_type w rt false)
            (store (λ m v. record m { no_standard_descriptor_accessor = v })))
      ∷ case_at 3 24 (on_scalar (bool_type w rt false) (store (λ m v. record m { deprecated = v })))
      ∷ case_at 7 56 (on_scalar (bool_type w rt false) (store (λ m v. record m { map_entry = v })))
      ∷ case_at 11 88 (
          on_scalar (bool_type w rt false)
            (store (λ m v. record m { deprecated_legacy_json_field_conflicts = v })))
      ∷ case_at 12 98
          (on_message w (FeatureSet.decode w rt) (store (λ m v. record m { features = v })))
      ∷ case_at 999 7994 (
          on_message w (UninterpretedOption.decode w rt)
            (push (λ m. m.uninterpreted_option) (λ m v. record m { uninterpreted_option = v })))
      ∷ []

  unfoldable pub decode : Decoder MessageOptions
  decode = decode_with w cases base

  unfoldable pub from_json : Value → Outcome MessageOptions
  from_json json = do
    message_set_wire_format ← present_of (bool_type w rt false) "messageSetWireFormat" json
    no_standard_descriptor_accessor ←
        present_of (bool_type w rt false) "noStandardDescriptorAccessor" json
    deprecated ← present_of (bool_type w rt false) "deprecated" json
    map_entry ← present_of (bool_type w rt false) "mapEntry" json
    deprecated_legacy_json_field_conflicts ←
        present_of (bool_type w rt false) "deprecatedLegacyJsonFieldConflicts" json
    features ← message_of (FeatureSet.from_json w rt) "features" json
    uninterpreted_option ←
        messages_of (UninterpretedOption.from_json w rt) "uninterpretedOption" json
    ok (record {
      message_set_wire_format = message_set_wire_format;
      no_standard_descriptor_accessor = no_standard_descriptor_accessor;
      deprecated = deprecated;
      map_entry = map_entry;
      deprecated_legacy_json_field_conflicts = deprecated_legacy_json_field_conflicts;
      features = features;
      uninterpreted_option = uninterpreted_option;
    })

  unfoldable pub to_json : MessageOptions → Value
  to_json message = build (
      present_entry (bool_type w rt false) "messageSetWireFormat" message.message_set_wire_format
      ∷ present_entry (bool_type w rt false) "noStandardDescriptorAccessor"
          message.no_standard_descriptor_accessor
      ∷ present_entry (bool_type w rt false) "deprecated" message.deprecated
      ∷ present_entry (bool_type w rt false) "mapEntry" message.map_entry
      ∷ present_entry (bool_type w rt false) "deprecatedLegacyJsonFieldConflicts"
          message.deprecated_legacy_json_field_conflicts
      ∷ message_entry (FeatureSet.to_json w rt) "features" message.features
      ∷ array_entry (UninterpretedOption.to_json w rt) "uninterpretedOption"
          message.uninterpreted_option
      ∷ [])

unfoldable pub from_partial : MessageOptionsPartial → MessageOptions
from_partial object = record {
  message_set_wire_format = or_present object.message_set_wire_format false;
  no_standard_descriptor_accessor = or_present object.no_standard_descriptor_accessor false;
  deprecated = or_present object.deprecated false;
  map_entry = or_present object.map_entry false;
  deprecated_legacy_json_field_conflicts =
      or_present object.deprecated_legacy_json_field_conflicts false;
  features = map_option FeatureSet.from_partial object.features;
  uninterpreted_option = map_or_empty UninterpretedOption.from_partial object.uninterpreted_option;
}

-- The partial message with no property.
abbrev pub empty : MessageOptionsPartial
empty = record {
  message_set_wire_format = none;
  no_standard_descriptor_accessor = none;
  deprecated = none;
  map_entry = none;
  deprecated_legacy_json_field_conflicts = none;
  features = none;
  uninterpreted_option = none;
}

-- create(base?): `base ?? {}`
unfoldable pub create : Option MessageOptionsPartial → MessageOptions
unfolding or_else
create object = from_partial (or_else object empty)

-- A message is a partial message.
unfoldable pub embed : MessageOptions → MessageOptionsPartial
embed m = record {
  message_set_wire_format = m.message_set_wire_format;
  no_standard_descriptor_accessor = m.no_standard_descriptor_accessor;
  deprecated = m.deprecated;
  map_entry = m.map_entry;
  deprecated_legacy_json_field_conflicts = m.deprecated_legacy_json_field_conflicts;
  features = map_option FeatureSet.embed m.features;
  uninterpreted_option = some (map UninterpretedOption.embed m.uninterpreted_option);
}

abbrev pub fns : Wire → Runtime → MessageFns MessageOptions MessageOptionsPartial
fns w rt = record {
  encode = encode w rt;
  decode = decode w rt;
  from_json = from_json w rt;
  to_json = to_json w rt;
  create = create;
  from_partial = from_partial;
}
