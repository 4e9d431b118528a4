-- ===== src/Descriptor/FeatureSetDefaultsFeatureSetEditionDefault.antt =====
-- FeatureSetDefaults_FeatureSetEditionDefault of gen/ts/google/protobuf/descriptor.ts.
pub mod Laws
use merkle_proof_service.Descriptor.FeatureSet.{FeatureSet, FeatureSetPartial}
use merkle_proof_service.Descriptor.FeatureSet
use merkle_proof_service.Descriptor.Enums.Edition
use merkle_proof_service.Message.Statements.{
  ℤ, pos, Option, none, some, List, [], ◌∷◌, Outcome, ok, ◌>>=◌, Wire, Writer, ◌▸◌, write_message,
  Case, case_at, Decoder, decode_with, on_message, Value, Runtime, message_of, message_entry, build,
  or_else, map_option, MessageFns, member_type, write_present, on_scalar, present_of, present_entry,
  or_present, store,
}

pub record FeatureSetDefaultsFeatureSetEditionDefault : Type 0 where
  pub edition : Option ℤ
  pub overridable_features : Option FeatureSet
  pub fixed_features : Option FeatureSet

-- DeepPartial<FeatureSetDefaults_FeatureSetEditionDefault>: `none` for a property that is missing or null.
pub record FeatureSetDefaultsFeatureSetEditionDefaultPartial : Type 0 where
  pub edition : Option ℤ
  pub overridable_features : Option FeatureSetPartial
  pub fixed_features : Option FeatureSetPartial

-- createBaseFeatureSetDefaults_FeatureSetEditionDefault
abbrev pub base : FeatureSetDefaultsFeatureSetEditionDefault
base = record { edition = some (pos 0); overridable_features = none; fixed_features = none }

module _ (w : Wire) (rt : Runtime) where
  unfoldable pub encode : FeatureSetDefaultsFeatureSetEditionDefault → Writer → Writer
  encode message =
      write_present w (member_type w rt Edition.fns 0) 24 message.edition
      ▸ write_message w (FeatureSet.encode w rt) 34 message.overridable_features
      ▸ write_message w (FeatureSet.encode w rt) 42 message.fixed_features

  -- The cases of the switch in `decode`.
  abbrev pub cases : List (Case FeatureSetDefaultsFeatureSetEditionDefault)
  cases =
      case_at 3 24
        (on_scalar (member_type w rt Edition.fns 0) (store (λ m v. record m { edition = v })))
      ∷ case_at 4 34 (
          on_message w (FeatureSet.decode w rt)
            (store (λ m v. record m { overridable_features = v })))
      ∷ case_at 5 42
          (on_message w (FeatureSet.decode w rt) (store (λ m v. record m { fixed_features = v })))
      ∷ []

  unfoldable pub decode : Decoder FeatureSetDefaultsFeatureSetEditionDefault
  decode = decode_with w cases base

  unfoldable pub from_json : Value → Outcome FeatureSetDefaultsFeatureSetEditionDefault
  from_json json = do
    edition ← present_of (member_type w rt Edition.fns 0) "edition" json
    overridable_features ← message_of (FeatureSet.from_json w rt) "overridableFeatures" json
    fixed_features ← message_of (FeatureSet.from_json w rt) "fixedFeatures" json
    ok (record {
      edition = edition;
      overridable_features = overridable_features;
      fixed_features = fixed_features;
    })

  unfoldable pub to_json : FeatureSetDefaultsFeatureSetEditionDefault → Value
  to_json message = build (
      present_entry (member_type w rt Edition.fns 0) "edition" message.edition
      ∷ message_entry (FeatureSet.to_json w rt) "overridableFeatures" message.overridable_features
      ∷ message_entry (FeatureSet.to_json w rt) "fixedFeatures" message.fixed_features
      ∷ [])

unfoldable pub from_partial :
    FeatureSetDefaultsFeatureSetEditionDefaultPartial → FeatureSetDefaultsFeatureSetEditionDefault
from_partial object = record {
  edition = or_present object.edition (pos 0);
  overridable_features = map_option FeatureSet.from_partial object.overridable_features;
  fixed_features = map_option FeatureSet.from_partial object.fixed_features;
}

-- The partial message with no property.
abbrev pub empty : FeatureSetDefaultsFeatureSetEditionDefaultPartial
empty = record { edition = none; overridable_features = none; fixed_features = none }

-- create(base?): `base ?? {}`
unfoldable pub create :
    Option FeatureSetDefaultsFeatureSetEditionDefaultPartial
    → FeatureSetDefaultsFeatureSetEditionDefault
unfolding or_else
create object = from_partial (or_else object empty)

-- A message is a partial message.
unfoldable pub embed :
    FeatureSetDefaultsFeatureSetEditionDefault → FeatureSetDefaultsFeatureSetEditionDefaultPartial
embed m = record {
  edition = m.edition;
  overridable_features = map_option FeatureSet.embed m.overridable_features;
  fixed_features = map_option FeatureSet.embed m.fixed_features;
}

abbrev pub fns :
    Wire
    → Runtime
    → MessageFns FeatureSetDefaultsFeatureSetEditionDefault
        FeatureSetDefaultsFeatureSetEditionDefaultPartial
fns w rt = record {
  encode = encode w rt;
  decode = decode w rt;
  from_json = from_json w rt;
  to_json = to_json w rt;
  create = create;
  from_partial = from_partial;
}
