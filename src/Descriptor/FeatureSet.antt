-- ===== src/Descriptor/FeatureSet.antt =====
-- FeatureSet of gen/ts/google/protobuf/descriptor.ts.
pub mod Laws
use merkle_proof_service.Descriptor.Enums.FeatureSetEnforceNamingStyle
use merkle_proof_service.Descriptor.Enums.FeatureSetEnumType
use merkle_proof_service.Descriptor.Enums.FeatureSetFieldPresence
use merkle_proof_service.Descriptor.Enums.FeatureSetJsonFormat
use merkle_proof_service.Descriptor.Enums.FeatureSetMessageEncoding
use merkle_proof_service.Descriptor.Enums.FeatureSetRepeatedFieldEncoding
use merkle_proof_service.Descriptor.Enums.FeatureSetUtf8Validation
use merkle_proof_service.Descriptor.Enums.FeatureSetVisibilityFeatureDefaultSymbolVisibility
use merkle_proof_service.Message.Statements.{
  ℤ, pos, Option, none, some, List, [], ◌∷◌, Outcome, ok, ◌>>=◌, Wire, Writer, ◌▸◌, Case, case_at,
  Decoder, decode_with, Value, Runtime, build, or_else, MessageFns, member_type, write_present,
  on_scalar, present_of, present_entry, or_present, store,
}

pub record FeatureSet : Type 0 where
  pub field_presence : Option ℤ
  pub enum_type : Option ℤ
  pub repeated_field_encoding : Option ℤ
  pub utf8_validation : Option ℤ
  pub message_encoding : Option ℤ
  pub json_format : Option ℤ
  pub enforce_naming_style : Option ℤ
  pub default_symbol_visibility : Option ℤ

-- DeepPartial<FeatureSet>: `none` for a property that is missing or null.
pub record FeatureSetPartial : Type 0 where
  pub field_presence : Option ℤ
  pub enum_type : Option ℤ
  pub repeated_field_encoding : Option ℤ
  pub utf8_validation : Option ℤ
  pub message_encoding : Option ℤ
  pub json_format : Option ℤ
  pub enforce_naming_style : Option ℤ
  pub default_symbol_visibility : Option ℤ

-- createBaseFeatureSet
abbrev pub base : FeatureSet
base = record {
  field_presence = some (pos 0);
  enum_type = some (pos 0);
  repeated_field_encoding = some (pos 0);
  utf8_validation = some (pos 0);
  message_encoding = some (pos 0);
  json_format = some (pos 0);
  enforce_naming_style = some (pos 0);
  default_symbol_visibility = some (pos 0);
}

module _ (w : Wire) (rt : Runtime) where
  unfoldable pub encode : FeatureSet → Writer → Writer
  encode message =
      write_present w (member_type w rt FeatureSetFieldPresence.fns 0) 8 message.field_presence
      ▸ write_present w (member_type w rt FeatureSetEnumType.fns 0) 16 message.enum_type
      ▸ write_present w (member_type w rt FeatureSetRepeatedFieldEncoding.fns 0) 24
          message.repeated_field_encoding
      ▸ write_present w (member_type w rt FeatureSetUtf8Validation.fns 0) 32 message.utf8_validation
      ▸ write_present w (member_type w rt FeatureSetMessageEncoding.fns 0) 40
          message.message_encoding
      ▸ write_present w (member_type w rt FeatureSetJsonFormat.fns 0) 48 message.json_format
      ▸ write_present w (member_type w rt FeatureSetEnforceNamingStyle.fns 0) 56
          message.enforce_naming_style
      ▸ write_present w (member_type w rt FeatureSetVisibilityFeatureDefaultSymbolVisibility.fns 0)
          64 message.default_symbol_visibility

  -- The cases of the switch in `decode`.
  abbrev pub cases : List (Case FeatureSet)
  cases =
      case_at 1 8 (
        on_scalar (member_type w rt FeatureSetFieldPresence.fns 0)
          (store (λ m v. record m { field_presence = v })))
      ∷ case_at 2 16 (
          on_scalar (member_type w rt FeatureSetEnumType.fns 0)
            (store (λ m v. record m { enum_type = v })))
      ∷ case_at 3 24 (
          on_scalar (member_type w rt FeatureSetRepeatedFieldEncoding.fns 0)
            (store (λ m v. record m { repeated_field_encoding = v })))
      ∷ case_at 4 32 (
          on_scalar (member_type w rt FeatureSetUtf8Validation.fns 0)
            (store (λ m v. record m { utf8_validation = v })))
      ∷ case_at 5 40 (
          on_scalar (member_type w rt FeatureSetMessageEncoding.fns 0)
            (store (λ m v. record m { message_encoding = v })))
      ∷ case_at 6 48 (
          on_scalar (member_type w rt FeatureSetJsonFormat.fns 0)
            (store (λ m v. record m { json_format = v })))
      ∷ case_at 7 56 (
          on_scalar (member_type w rt FeatureSetEnforceNamingStyle.fns 0)
            (store (λ m v. record m { enforce_naming_style = v })))
      ∷ case_at 8 64 (
          on_scalar (member_type w rt FeatureSetVisibilityFeatureDefaultSymbolVisibility.fns 0)
            (store (λ m v. record m { default_symbol_visibility = v })))
      ∷ []

  unfoldable pub decode : Decoder FeatureSet
  decode = decode_with w cases base

  unfoldable pub from_json : Value → Outcome FeatureSet
  from_json json = do
    field_presence ←
        present_of (member_type w rt FeatureSetFieldPresence.fns 0) "fieldPresence" json
    enum_type ← present_of (member_type w rt FeatureSetEnumType.fns 0) "enumType" json
    repeated_field_encoding ←
        present_of (member_type w rt FeatureSetRepeatedFieldEncoding.fns 0) "repeatedFieldEncoding"
          json
    utf8_validation ←
        present_of (member_type w rt FeatureSetUtf8Validation.fns 0) "utf8Validation" json
    message_encoding ←
        present_of (member_type w rt FeatureSetMessageEncoding.fns 0) "messageEncoding" json
    json_format ← present_of (member_type w rt FeatureSetJsonFormat.fns 0) "jsonFormat" json
    enforce_naming_style ←
        present_of (member_type w rt FeatureSetEnforceNamingStyle.fns 0) "enforceNamingStyle" json
    default_symbol_visibility ←
        present_of (member_type w rt FeatureSetVisibilityFeatureDefaultSymbolVisibility.fns 0)
          "defaultSymbolVisibility" json
    ok (record {
      field_presence = field_presence;
      enum_type = enum_type;
      repeated_field_encoding = repeated_field_encoding;
      utf8_validation = utf8_validation;
      message_encoding = message_encoding;
      json_format = json_format;
      enforce_naming_style = enforce_naming_style;
      default_symbol_visibility = default_symbol_visibility;
    })

  unfoldable pub to_json : FeatureSet → Value
  to_json message = build (
      present_entry (member_type w rt FeatureSetFieldPresence.fns 0) "fieldPresence"
        message.field_presence
      ∷ present_entry (member_type w rt FeatureSetEnumType.fns 0) "enumType" message.enum_type
      ∷ present_entry (member_type w rt FeatureSetRepeatedFieldEncoding.fns 0)
          "repeatedFieldEncoding" message.repeated_field_encoding
      ∷ present_entry (member_type w rt FeatureSetUtf8Validation.fns 0) "utf8Validation"
          message.utf8_validation
      ∷ present_entry (member_type w rt FeatureSetMessageEncoding.fns 0) "messageEncoding"
          message.message_encoding
      ∷ present_entry (member_type w rt FeatureSetJsonFormat.fns 0) "jsonFormat" message.json_format
      ∷ present_entry (member_type w rt FeatureSetEnforceNamingStyle.fns 0) "enforceNamingStyle"
          message.enforce_naming_style
      ∷ present_entry (member_type w rt FeatureSetVisibilityFeatureDefaultSymbolVisibility.fns 0)
          "defaultSymbolVisibility" message.default_symbol_visibility
      ∷ [])

unfoldable pub from_partial : FeatureSetPartial → FeatureSet
from_partial object = record {
  field_presence = or_present object.field_presence (pos 0);
  enum_type = or_present object.enum_type (pos 0);
  repeated_field_encoding = or_present object.repeated_field_encoding (pos 0);
  utf8_validation = or_present object.utf8_validation (pos 0);
  message_encoding = or_present object.message_encoding (pos 0);
  json_format = or_present object.json_format (pos 0);
  enforce_naming_style = or_present object.enforce_naming_style (pos 0);
  default_symbol_visibility = or_present object.default_symbol_visibility (pos 0);
}

-- The partial message with no property.
abbrev pub empty : FeatureSetPartial
empty = record {
  field_presence = none;
  enum_type = none;
  repeated_field_encoding = none;
  utf8_validation = none;
  message_encoding = none;
  json_format = none;
  enforce_naming_style = none;
  default_symbol_visibility = none;
}

-- create(base?): `base ?? {}`
unfoldable pub create : Option FeatureSetPartial → FeatureSet
unfolding or_else
create object = from_partial (or_else object empty)

-- A message is a partial message.
unfoldable pub embed : FeatureSet → FeatureSetPartial
embed m = record {
  field_presence = m.field_presence;
  enum_type = m.enum_type;
  repeated_field_encoding = m.repeated_field_encoding;
  utf8_validation = m.utf8_validation;
  message_encoding = m.message_encoding;
  json_format = m.json_format;
  enforce_naming_style = m.enforce_naming_style;
  default_symbol_visibility = m.default_symbol_visibility;
}

abbrev pub fns : Wire → Runtime → MessageFns FeatureSet FeatureSetPartial
fns w rt = record {
  encode = encode w rt;
  decode = decode w rt;
  from_json = from_json w rt;
  to_json = to_json w rt;
  create = create;
  from_partial = from_partial;
}
