-- ===== src/Descriptor/FieldOptionsFeatureSupport.antt =====
-- FieldOptions_FeatureSupport of gen/ts/google/protobuf/descriptor.ts.
pub mod Laws
use merkle_proof_service.Descriptor.Enums.Edition
use merkle_proof_service.Message.Statements.{
  ℤ, pos, String, Option, none, some, List, [], ◌∷◌, Outcome, ok, ◌>>=◌, Wire, Writer, ◌▸◌, Case,
  case_at, Decoder, decode_with, Value, Runtime, build, or_else, MessageFns, string_type,
  member_type, write_present, on_scalar, present_of, present_entry, or_present, store,
}

pub record FieldOptionsFeatureSupport : Type 0 where
  pub edition_introduced : Option ℤ
  pub edition_deprecated : Option ℤ
  pub deprecation_warning : Option String
  pub edition_removed : Option ℤ

-- DeepPartial<FieldOptions_FeatureSupport>: `none` for a property that is missing or null.
pub record FieldOptionsFeatureSupportPartial : Type 0 where
  pub edition_introduced : Option ℤ
  pub edition_deprecated : Option ℤ
  pub deprecation_warning : Option String
  pub edition_removed : Option ℤ

-- createBaseFieldOptions_FeatureSupport
abbrev pub base : FieldOptionsFeatureSupport
base = record {
  edition_introduced = some (pos 0);
  edition_deprecated = some (pos 0);
  deprecation_warning = some "";
  edition_removed = some (pos 0);
}

module _ (w : Wire) (rt : Runtime) where
  unfoldable pub encode : FieldOptionsFeatureSupport → Writer → Writer
  encode message =
      write_present w (member_type w rt Edition.fns 0) 8 message.edition_introduced
      ▸ write_present w (member_type w rt Edition.fns 0) 16 message.edition_deprecated
      ▸ write_present w (string_type w rt) 26 message.deprecation_warning
      ▸ write_present w (member_type w rt Edition.fns 0) 32 message.edition_removed

  -- The cases of the switch in `decode`.
  abbrev pub cases : List (Case FieldOptionsFeatureSupport)
  cases =
      case_at 1 8 (
        on_scalar (member_type w rt Edition.fns 0)
          (store (λ m v. record m { edition_introduced = v })))
      ∷ case_at 2 16 (
          on_scalar (member_type w rt Edition.fns 0)
            (store (λ m v. record m { edition_deprecated = v })))
      ∷ case_at 3 26
          (on_scalar (string_type w rt) (store (λ m v. record m { deprecation_warning = v })))
      ∷ case_at 4 32 (
          on_scalar (member_type w rt Edition.fns 0)
            (store (λ m v. record m { edition_removed = v })))
      ∷ []

  unfoldable pub decode : Decoder FieldOptionsFeatureSupport
  decode = decode_with w cases base

  unfoldable pub from_json : Value → Outcome FieldOptionsFeatureSupport
  from_json json = do
    edition_introduced ← present_of (member_type w rt Edition.fns 0) "editionIntroduced" json
    edition_deprecated ← present_of (member_type w rt Edition.fns 0) "editionDeprecated" json
    deprecation_warning ← present_of (string_type w rt) "deprecationWarning" json
    edition_removed ← present_of (member_type w rt Edition.fns 0) "editionRemoved" json
    ok (record {
      edition_introduced = edition_introduced;
      edition_deprecated = edition_deprecated;
      deprecation_warning = deprecation_warning;
      edition_removed = edition_removed;
    })

  unfoldable pub to_json : FieldOptionsFeatureSupport → Value
  to_json message = build (
      present_entry (member_type w rt Edition.fns 0) "editionIntroduced" message.edition_introduced
      ∷ present_entry (member_type w rt Edition.fns 0) "editionDeprecated"
          message.edition_deprecated
      ∷ present_entry (string_type w rt) "deprecationWarning" message.deprecation_warning
      ∷ present_entry (member_type w rt Edition.fns 0) "editionRemoved" message.edition_removed
      ∷ [])

unfoldable pub from_partial : FieldOptionsFeatureSupportPartial → FieldOptionsFeatureSupport
from_partial object = record {
  edition_introduced = or_present object.edition_introduced (pos 0);
  edition_deprecated = or_present object.edition_deprecated (pos 0);
  deprecation_warning = or_present object.deprecation_warning "";
  edition_removed = or_present object.edition_removed (pos 0);
}

-- The partial message with no property.
abbrev pub empty : FieldOptionsFeatureSupportPartial
empty = record {
  edition_introduced = none;
  edition_deprecated = none;
  deprecation_warning = none;
  edition_removed = none;
}

-- create(base?): `base ?? {}`
unfoldable pub create : Option FieldOptionsFeatureSupportPartial → FieldOptionsFeatureSupport
unfolding or_else
create object = from_partial (or_else object empty)

-- A message is a partial message.
unfoldable pub embed : FieldOptionsFeatureSupport → FieldOptionsFeatureSupportPartial
embed m = record {
  edition_introduced = m.edition_introduced;
  edition_deprecated = m.edition_deprecated;
  deprecation_warning = m.deprecation_warning;
  edition_removed = m.edition_removed;
}

abbrev pub fns :
    Wire → Runtime → MessageFns FieldOptionsFeatureSupport FieldOptionsFeatureSupportPartial
fns w rt = record {
  encode = encode w rt;
  decode = decode w rt;
  from_json = from_json w rt;
  to_json = to_json w rt;
  create = create;
  from_partial = from_partial;
}
