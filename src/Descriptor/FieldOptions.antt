-- ===== src/Descriptor/FieldOptions.antt =====
-- FieldOptions of gen/ts/google/protobuf/descriptor.ts.
pub mod Laws
use merkle_proof_service.Descriptor.FeatureSet.{FeatureSet, FeatureSetPartial}
use merkle_proof_service.Descriptor.FeatureSet
use merkle_proof_service.Descriptor.FieldOptionsEditionDefault.{
  FieldOptionsEditionDefault, FieldOptionsEditionDefaultPartial,
}
use merkle_proof_service.Descriptor.FieldOptionsEditionDefault
use merkle_proof_service.Descriptor.FieldOptionsFeatureSupport.{
  FieldOptionsFeatureSupport, FieldOptionsFeatureSupportPartial,
}
use merkle_proof_service.Descriptor.FieldOptionsFeatureSupport
use merkle_proof_service.Descriptor.UninterpretedOption.{
  UninterpretedOption, UninterpretedOptionPartial,
}
use merkle_proof_service.Descriptor.UninterpretedOption
use merkle_proof_service.Descriptor.Enums.FieldOptionsCType
use merkle_proof_service.Descriptor.Enums.FieldOptionsJsType
use merkle_proof_service.Descriptor.Enums.FieldOptionsOptionRetention
use merkle_proof_service.Descriptor.Enums.FieldOptionsOptionTargetType
use merkle_proof_service.Message.Statements.{
  ℤ, pos, Bool, false, Option, none, some, List, [], ◌∷◌, map, Outcome, ok, ◌>>=◌, Wire, Writer,
  ◌▸◌, write_message, write_messages, Case, case_at, packed_at, Decoder, decode_with, on_message,
  Value, Runtime, message_of, messages_of, message_entry, array_entry, build, or_else, map_option,
  map_or_empty, MessageFns, bool_type, member_type, write_present, on_scalar, present_of,
  present_entry, or_present, store, push, write_packed, on_int32, on_packed,
}

pub record FieldOptions : Type 0 where
  pub ctype : Option ℤ
  pub packed : Option Bool
  pub jstype : Option ℤ
  pub lazy : Option Bool
  pub unverified_lazy : Option Bool
  pub deprecated : Option Bool
  pub weak : Option Bool
  pub debug_redact : Option Bool
  pub retention : Option ℤ
  pub targets : List ℤ
  pub edition_defaults : List FieldOptionsEditionDefault
  pub features : Option FeatureSet
  pub feature_support : Option FieldOptionsFeatureSupport
  pub uninterpreted_option : List UninterpretedOption

-- DeepPartial<FieldOptions>: `none` for a property that is missing or null.
pub record FieldOptionsPartial : Type 0 where
  pub ctype : Option ℤ
  pub packed : Option Bool
  pub jstype : Option ℤ
  pub lazy : Option Bool
  pub unverified_lazy : Option Bool
  pub deprecated : Option Bool
  pub weak : Option Bool
  pub debug_redact : Option Bool
  pub retention : Option ℤ
  pub targets : Option (List ℤ)
  pub edition_defaults : Option (List FieldOptionsEditionDefaultPartial)
  pub features : Option FeatureSetPartial
  pub feature_support : Option FieldOptionsFeatureSupportPartial
  pub uninterpreted_option : Option (List UninterpretedOptionPartial)

-- createBaseFieldOptions
abbrev pub base : FieldOptions
base = record {
  ctype = some (pos 0);
  packed = some false;
  jstype = some (pos 0);
  lazy = some false;
  unverified_lazy = some false;
  deprecated = some false;
  weak = some false;
  debug_redact = some false;
  retention = some (pos 0);
  targets = [];
  edition_defaults = [];
  features = none;
  feature_support = none;
  uninterpreted_option = [];
}

module _ (w : Wire) (rt : Runtime) where
  unfoldable pub encode : FieldOptions → Writer → Writer
  encode message =
      write_present w (member_type w rt FieldOptionsCType.fns 0) 8 message.ctype
      ▸ write_present w (bool_type w rt false) 16 message.packed
      ▸ write_present w (member_type w rt FieldOptionsJsType.fns 0) 48 message.jstype
      ▸ write_present w (bool_type w rt false) 40 message.lazy
      ▸ write_present w (bool_type w rt false) 120 message.unverified_lazy
      ▸ write_present w (bool_type w rt false) 24 message.deprecated
      ▸ write_present w (bool_type w rt false) 80 message.weak
      ▸ write_present w (bool_type w rt false) 128 message.debug_redact
      ▸ write_present w (member_type w rt FieldOptionsOptionRetention.fns 0) 136 message.retention
      ▸ write_packed w 154 message.targets
      ▸ write_messages w (FieldOptionsEditionDefault.encode w rt) 162 message.edition_defaults
      ▸ write_message w (FeatureSet.encode w rt) 170 message.features
      ▸ write_message w (FieldOptionsFeatureSupport.encode w rt) 178 message.feature_support
      ▸ write_messages w (UninterpretedOption.encode w rt) 7994 message.uninterpreted_option

  -- The cases of the switch in `decode`.
  abbrev pub cases : List (Case FieldOptions)
  cases =
      case_at 1 8 (
        on_scalar (member_type w rt FieldOptionsCType.fns 0)
          (store (λ m v. record m { ctype = v })))
      ∷ case_at 2 16 (on_scalar (bool_type w rt false) (store (λ m v. record m { packed = v })))
      ∷ case_at 6 48 (
          on_scalar (member_type w rt FieldOptionsJsType.fns 0)
            (store (λ m v. record m { jstype = v })))
      ∷ case_at 5 40 (on_scalar (bool_type w rt false) (store (λ m v. record m { lazy = v })))
      ∷ case_at 15 120
          (on_scalar (bool_type w rt false) (store (λ m v. record m { unverified_lazy = v })))
      ∷ case_at 3 24 (on_scalar (bool_type w rt false) (store (λ m v. record m { deprecated = v })))
      ∷ case_at 10 80 (on_scalar (bool_type w rt false) (store (λ m v. record m { weak = v })))
      ∷ case_at 16 128
          (on_scalar (bool_type w rt false) (store (λ m v. record m { debug_redact = v })))
      ∷ case_at 17 136 (
          on_scalar (member_type w rt FieldOptionsOptionRetention.fns 0)
            (store (λ m v. record m { retention = v })))
      ∷ packed_at 19 152 (on_int32 w (push (λ m. m.targets) (λ m v. record m { targets = v }))) 154
          (on_packed w (push (λ m. m.targets) (λ m v. record m { targets = v })))
      ∷ case_at 20 162 (
          on_message w (FieldOptionsEditionDefault.decode w rt)
            (push (λ m. m.edition_defaults) (λ m v. record m { edition_defaults = v })))
      ∷ case_at 21 170
          (on_message w (FeatureSet.decode w rt) (store (λ m v. record m { features = v })))
      ∷ case_at 22 178 (
          on_message w (FieldOptionsFeatureSupport.decode w rt)
            (store (λ m v. record m { feature_support = v })))
      ∷ case_at 999 7994 (
          on_message w (UninterpretedOption.decode w rt)
            (push (λ m. m.uninterpreted_option) (λ m v. record m { uninterpreted_option = v })))
      ∷ []

  unfoldable pub decode : Decoder FieldOptions
  decode = decode_with w cases base

  unfoldable pub from_json : Value → Outcome FieldOptions
  from_json json = do
    ctype ← present_of (member_type w rt FieldOptionsCType.fns 0) "ctype" json
    packed ← present_of (bool_type w rt false) "packed" json
    jstype ← present_of (member_type w rt FieldOptionsJsType.fns 0) "jstype" json
    lazy ← present_of (bool_type w rt false) "lazy" json
    unverified_lazy ← present_of (bool_type w rt false) "unverifiedLazy" json
    deprecated ← present_of (bool_type w rt false) "deprecated" json
    weak ← present_of (bool_type w rt false) "weak" json
    debug_redact ← present_of (bool_type w rt false) "debugRedact" json
    retention ← present_of (member_type w rt FieldOptionsOptionRetention.fns 0) "retention" json
    targets ←
        messages_of (member_type w rt FieldOptionsOptionTargetType.fns 0).of_json "targets" json
    edition_defaults ←
        messages_of (FieldOptionsEditionDefault.from_json w rt) "editionDefaults" json
    features ← message_of (FeatureSet.from_json w rt) "features" json
    feature_support ← message_of (FieldOptionsFeatureSupport.from_json w rt) "featureSupport" json
    uninterpreted_option ←
        messages_of (UninterpretedOption.from_json w rt) "uninterpretedOption" json
    ok (record {
      ctype = ctype;
      packed = packed;
      jstype = jstype;
      lazy = lazy;
      unverified_lazy = unverified_lazy;
      deprecated = deprecated;
      weak = weak;
      debug_redact = debug_redact;
      retention = retention;
      targets = targets;
      edition_defaults = edition_defaults;
      features = features;
      feature_support = feature_support;
      uninterpreted_option = uninterpreted_option;
    })

  unfoldable pub to_json : FieldOptions → Value
  to_json message = build (
      present_entry (member_type w rt FieldOptionsCType.fns 0) "ctype" message.ctype
      ∷ present_entry (bool_type w rt false) "packed" message.packed
      ∷ present_entry (member_type w rt FieldOptionsJsType.fns 0) "jstype" message.jstype
      ∷ present_entry (bool_type w rt false) "lazy" message.lazy
      ∷ present_entry (bool_type w rt false) "unverifiedLazy" message.unverified_lazy
      ∷ present_entry (bool_type w rt false) "deprecated" message.deprecated
      ∷ present_entry (bool_type w rt false) "weak" message.weak
      ∷ present_entry (bool_type w rt false) "debugRedact" message.debug_redact
      ∷ present_entry (member_type w rt FieldOptionsOptionRetention.fns 0) "retention"
          message.retention
      ∷ array_entry (member_type w rt FieldOptionsOptionTargetType.fns 0).to_json "targets"
          message.targets
      ∷ array_entry (FieldOptionsEditionDefault.to_json w rt) "editionDefaults"
          message.edition_defaults
      ∷ message_entry (FeatureSet.to_json w rt) "features" message.features
      ∷ message_entry (FieldOptionsFeatureSupport.to_json w rt) "featureSupport"
          message.feature_support
      ∷ array_entry (UninterpretedOption.to_json w rt) "uninterpretedOption"
          message.uninterpreted_option
      ∷ [])

unfoldable pub from_partial : FieldOptionsPartial → FieldOptions
from_partial object = record {
  ctype = or_present object.ctype (pos 0);
  packed = or_present object.packed false;
  jstype = or_present object.jstype (pos 0);
  lazy = or_present object.lazy false;
  unverified_lazy = or_present object.unverified_lazy false;
  deprecated = or_present object.deprecated false;
  weak = or_present object.weak false;
  debug_redact = or_present object.debug_redact false;
  retention = or_present object.retention (pos 0);
  targets = map_or_empty (λ e. e) object.targets;
  edition_defaults = map_or_empty FieldOptionsEditionDefault.from_partial object.edition_defaults;
  features = map_option FeatureSet.from_partial object.features;
  feature_support = map_option FieldOptionsFeatureSupport.from_partial object.feature_support;
  uninterpreted_option = map_or_empty UninterpretedOption.from_partial object.uninterpreted_option;
}

-- The partial message with no property.
abbrev pub empty : FieldOptionsPartial
empty = record {
  ctype = none;
  packed = none;
  jstype = none;
  lazy = none;
  unverified_lazy = none;
  deprecated = none;
  weak = none;
  debug_redact = none;
  retention = none;
  targets = none;
  edition_defaults = none;
  features = none;
  feature_support = none;
  uninterpreted_option = none;
}

-- create(base?): `base ?? {}`
unfoldable pub create : Option FieldOptionsPartial → FieldOptions
unfolding or_else
create object = from_partial (or_else object empty)

-- A message is a partial message.
unfoldable pub embed : FieldOptions → FieldOptionsPartial
embed m = record {
  ctype = m.ctype;
  packed = m.packed;
  jstype = m.jstype;
  lazy = m.lazy;
  unverified_lazy = m.unverified_lazy;
  deprecated = m.deprecated;
  weak = m.weak;
  debug_redact = m.debug_redact;
  retention = m.retention;
  targets = some m.targets;
  edition_defaults = some (map FieldOptionsEditionDefault.embed m.edition_defaults);
  features = map_option FeatureSet.embed m.features;
  feature_support = map_option FieldOptionsFeatureSupport.embed m.feature_support;
  uninterpreted_option = some (map UninterpretedOption.embed m.uninterpreted_option);
}

abbrev pub fns : Wire → Runtime → MessageFns FieldOptions FieldOptionsPartial
fns w rt = record {
  encode = encode w rt;
  decode = decode w rt;
  from_json = from_json w rt;
  to_json = to_json w rt;
  create = create;
  from_partial = from_partial;
}
