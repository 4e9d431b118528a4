-- ===== src/Descriptor/FeatureSetDefaults.antt =====
-- FeatureSetDefaults of gen/ts/google/protobuf/descriptor.ts.
pub mod Laws
use merkle_proof_service.Descriptor.FeatureSetDefaultsFeatureSetEditionDefault.{
  FeatureSetDefaultsFeatureSetEditionDefault, FeatureSetDefaultsFeatureSetEditionDefaultPartial,
}
use merkle_proof_service.Descriptor.FeatureSetDefaultsFeatureSetEditionDefault
use merkle_proof_service.Descriptor.Enums.Edition
use merkle_proof_service.Message.Statements.{
  ℤ, pos, Option, none, some, List, [], ◌∷◌, map, Outcome, ok, ◌>>=◌, Wire, Writer, ◌▸◌,
  write_messages, Case, case_at, Decoder, decode_with, on_message, Value, Runtime, messages_of,
  array_entry, build, or_else, map_or_empty, MessageFns, member_type, write_present, on_scalar,
  present_of, present_entry, or_present, store, push,
}

pub record FeatureSetDefaults : Type 0 where
  pub defaults : List FeatureSetDefaultsFeatureSetEditionDefault
  pub minimum_edition : Option ℤ
  pub maximum_edition : Option ℤ

-- DeepPartial<FeatureSetDefaults>: `none` for a property that is missing or null.
pub record FeatureSetDefaultsPartial : Type 0 where
  pub defaults : Option (List FeatureSetDefaultsFeatureSetEditionDefaultPartial)
  pub minimum_edition : Option ℤ
  pub maximum_edition : Option ℤ

-- createBaseFeatureSetDefaults
abbrev pub base : FeatureSetDefaults
base = record { defaults = []; minimum_edition = some (pos 0); maximum_edition = some (pos 0) }

module _ (w : Wire) (rt : Runtime) where
  unfoldable pub encode : FeatureSetDefaults → Writer → Writer
  encode message =
      write_messages w (FeatureSetDefaultsFeatureSetEditionDefault.encode w rt) 10 message.defaults
      ▸ write_present w (member_type w rt Edition.fns 0) 32 message.minimum_edition
      ▸ write_present w (member_type w rt Edition.fns 0) 40 message.maximum_edition

  -- The cases of the switch in `decode`.
  abbrev pub cases : List (Case FeatureSetDefaults)
  cases =
      case_at 1 10 (
        on_message w (FeatureSetDefaultsFeatureSetEditionDefault.decode w rt)
          (push (λ m. m.defaults) (λ m v. record m { defaults = v })))
      ∷ case_at 4 32 (
          on_scalar (member_type w rt Edition.fns 0)
            (store (λ m v. record m { minimum_edition = v })))
      ∷ case_at 5 40 (
          on_scalar (member_type w rt Edition.fns 0)
            (store (λ m v. record m { maximum_edition = v })))
      ∷ []

  unfoldable pub decode : Decoder FeatureSetDefaults
  decode = decode_with w cases base

  unfoldable pub from_json : Value → Outcome FeatureSetDefaults
  from_json json = do
    defaults ←
        messages_of (FeatureSetDefaultsFeatureSetEditionDefault.from_json w rt) "defaults" json
    minimum_edition ← present_of (member_type w rt Edition.fns 0) "minimumEdition" json
    maximum_edition ← present_of (member_type w rt Edition.fns 0) "maximumEdition" json
    ok (record {
      defaults = defaults;
      minimum_edition = minimum_edition;
      maximum_edition = maximum_edition;
    })

  unfoldable pub to_json : FeatureSetDefaults → Value
  to_json message = build (
      array_entry (FeatureSetDefaultsFeatureSetEditionDefault.to_json w rt) "defaults"
        message.defaults
      ∷ present_entry (member_type w rt Edition.fns 0) "minimumEdition" message.minimum_edition
      ∷ present_entry (member_type w rt Edition.fns 0) "maximumEdition" message.maximum_edition
      ∷ [])

unfoldable pub from_partial : FeatureSetDefaultsPartial → FeatureSetDefaults
from_partial object = record {
  defaults = map_or_empty FeatureSetDefaultsFeatureSetEditionDefault.from_partial object.defaults;
  minimum_edition = or_present object.minimum_edition (pos 0);
  maximum_edition = or_present object.maximum_edition (pos 0);
}

-- The partial message with no property.
abbrev pub empty : FeatureSetDefaultsPartial
empty = record { defaults = none; minimum_edition = none; maximum_edition = none }

-- create(base?): `base ?? {}`
unfoldable pub create : Option FeatureSetDefaultsPartial → FeatureSetDefaults
unfolding or_else
create object = from_partial (or_else object empty)

-- A message is a partial message.
unfoldable pub embed : FeatureSetDefaults → FeatureSetDefaultsPartial
embed m = record {
  defaults = some (map FeatureSetDefaultsFeatureSetEditionDefault.embed m.defaults);
  minimum_edition = m.minimum_edition;
  maximum_edition = m.maximum_edition;
}

abbrev pub fns : Wire → Runtime → MessageFns FeatureSetDefaults FeatureSetDefaultsPartial
fns w rt = record {
  encode = encode w rt;
  decode = decode w rt;
  from_json = from_json w rt;
  to_json = to_json w rt;
  create = create;
  from_partial = from_partial;
}
