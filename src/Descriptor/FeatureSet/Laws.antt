-- ===== src/Descriptor/FeatureSet/Laws.antt =====
-- FeatureSet of gen/ts/google/protobuf/descriptor.ts: its fields, one by one.
use merkle_proof_service.Descriptor.FeatureSet.{
  FeatureSet, FeatureSetPartial, base, encode, decode, from_json, to_json, from_partial, create,
  empty, embed, fns,
}
use merkle_proof_service.Descriptor.Enums.FeatureSetEnforceNamingStyle
use merkle_proof_service.Descriptor.Enums.FeatureSetEnumType
use merkle_proof_service.Descriptor.Enums.FeatureSetFieldPresence
use merkle_proof_service.Descriptor.Enums.FeatureSetJsonFormat
use merkle_proof_service.Descriptor.Enums.FeatureSetMessageEncoding
use merkle_proof_service.Descriptor.Enums.FeatureSetRepeatedFieldEncoding
use merkle_proof_service.Descriptor.Enums.FeatureSetUtf8Validation
use merkle_proof_service.Descriptor.Enums.FeatureSetVisibilityFeatureDefaultSymbolVisibility
use merkle_proof_service.Message.Statements.{pos, List, [], ◌∷◌, Wire, Runtime, or_present}
use merkle_proof_service.Message.Fields.{
  refl, arith, AllOption, IsLawful, switch, IsRuntime, member_type-IsScalar, Row, Message,
  scalar_row, OfRows, rows-Message, IsMember,
}

-- What is read of a message: a field that is `undefined` has its default.
unfoldable pub normal : FeatureSet → FeatureSet
normal m = record {
  field_presence = or_present m.field_presence (pos 0);
  enum_type = or_present m.enum_type (pos 0);
  repeated_field_encoding = or_present m.repeated_field_encoding (pos 0);
  utf8_validation = or_present m.utf8_validation (pos 0);
  message_encoding = or_present m.message_encoding (pos 0);
  json_format = or_present m.json_format (pos 0);
  enforce_naming_style = or_present m.enforce_naming_style (pos 0);
  default_symbol_visibility = or_present m.default_symbol_visibility (pos 0);
}

-- The values that the fields can hold.
abbrev pub IsValid : Wire → Runtime → FeatureSet → Type 0
IsValid w rt m =
    (AllOption (IsMember FeatureSetFieldPresence.fns) m.field_presence)
    × (AllOption (IsMember FeatureSetEnumType.fns) m.enum_type)
    × (AllOption (IsMember FeatureSetRepeatedFieldEncoding.fns) m.repeated_field_encoding)
    × (AllOption (IsMember FeatureSetUtf8Validation.fns) m.utf8_validation)
    × (AllOption (IsMember FeatureSetMessageEncoding.fns) m.message_encoding)
    × (AllOption (IsMember FeatureSetJsonFormat.fns) m.json_format)
    × (AllOption (IsMember FeatureSetEnforceNamingStyle.fns) m.enforce_naming_style)
    × (AllOption (IsMember FeatureSetVisibilityFeatureDefaultSymbolVisibility.fns)
        m.default_symbol_visibility)

module _ (w : Wire) (L : IsLawful w) (rt : Runtime) (R : IsRuntime rt) where
  abbrev pub rows : List (Row w rt FeatureSet FeatureSetPartial)
  rows =
      scalar_row w L rt
        (member_type-IsScalar w L rt R FeatureSetFieldPresence.unrecognized
          FeatureSetFieldPresence.fns FeatureSetFieldPresence.FeatureSetFieldPresence-IsEnum 0)
        8 (omega arith) "fieldPresence" (λ m. m.field_presence)
        (λ m v. record m { field_presence = v }) (λ p. p.field_presence)
      ∷ scalar_row w L rt
          (member_type-IsScalar w L rt R FeatureSetEnumType.unrecognized FeatureSetEnumType.fns
            FeatureSetEnumType.FeatureSetEnumType-IsEnum 0)
          16 (omega arith) "enumType" (λ m. m.enum_type) (λ m v. record m { enum_type = v })
          (λ p. p.enum_type)
      ∷ scalar_row w L rt
          (member_type-IsScalar w L rt R FeatureSetRepeatedFieldEncoding.unrecognized
            FeatureSetRepeatedFieldEncoding.fns
            FeatureSetRepeatedFieldEncoding.FeatureSetRepeatedFieldEncoding-IsEnum 0)
          24 (omega arith) "repeatedFieldEncoding" (λ m. m.repeated_field_encoding)
          (λ m v. record m { repeated_field_encoding = v }) (λ p. p.repeated_field_encoding)
      ∷ scalar_row w L rt
          (member_type-IsScalar w L rt R FeatureSetUtf8Validation.unrecognized
            FeatureSetUtf8Validation.fns FeatureSetUtf8Validation.FeatureSetUtf8Validation-IsEnum 0)
          32 (omega arith) "utf8Validation" (λ m. m.utf8_validation)
          (λ m v. record m { utf8_validation = v }) (λ p. p.utf8_validation)
      ∷ scalar_row w L rt
          (member_type-IsScalar w L rt R FeatureSetMessageEncoding.unrecognized
            FeatureSetMessageEncoding.fns FeatureSetMessageEncoding.FeatureSetMessageEncoding-IsEnum
            0)
          40 (omega arith) "messageEncoding" (λ m. m.message_encoding)
          (λ m v. record m { message_encoding = v }) (λ p. p.message_encoding)
      ∷ scalar_row w L rt
          (member_type-IsScalar w L rt R FeatureSetJsonFormat.unrecognized FeatureSetJsonFormat.fns
            FeatureSetJsonFormat.FeatureSetJsonFormat-IsEnum 0)
          48 (omega arith) "jsonFormat" (λ m. m.json_format) (λ m v. record m { json_format = v })
          (λ p. p.json_format)
      ∷ scalar_row w L rt
          (member_type-IsScalar w L rt R FeatureSetEnforceNamingStyle.unrecognized
            FeatureSetEnforceNamingStyle.fns
            FeatureSetEnforceNamingStyle.FeatureSetEnforceNamingStyle-IsEnum 0)
          56 (omega arith) "enforceNamingStyle" (λ m. m.enforce_naming_style)
          (λ m v. record m { enforce_naming_style = v }) (λ p. p.enforce_naming_style)
      ∷ scalar_row w L rt
          (member_type-IsScalar w L rt R
            FeatureSetVisibilityFeatureDefaultSymbolVisibility.unrecognized
            FeatureSetVisibilityFeatureDefaultSymbolVisibility.fns
            FeatureSetVisibilityFeatureDefaultSymbolVisibility.FeatureSetVisibilityFeatureDefaultSymbolVisibility-IsEnum
            0)
          64 (omega arith) "defaultSymbolVisibility" (λ m. m.default_symbol_visibility)
          (λ m v. record m { default_symbol_visibility = v }) (λ p. p.default_symbol_visibility)
      ∷ []

  pub FeatureSet-OfRows : OfRows (fns w rt) embed normal rows base empty
  unfolding encode decode from_json to_json from_partial create embed normal switch
  FeatureSet-OfRows = refl

  abbrev pub FeatureSet-Message : Message rt FeatureSet FeatureSetPartial
  FeatureSet-Message =
      rows-Message L (fns w rt) embed normal rows base empty FeatureSet-OfRows (IsValid w rt)
        (λ m h. (h.0, (h.1, (h.2, (h.3, (h.4, (h.5, (h.6, (h.7, tt)))))))))
