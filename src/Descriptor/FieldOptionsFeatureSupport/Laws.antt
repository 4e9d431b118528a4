-- ===== src/Descriptor/FieldOptionsFeatureSupport/Laws.antt =====
-- FieldOptions_FeatureSupport of gen/ts/google/protobuf/descriptor.ts: its fields, one by one.
use merkle_proof_service.Descriptor.FieldOptionsFeatureSupport.{
  FieldOptionsFeatureSupport, FieldOptionsFeatureSupportPartial, base, encode, decode, from_json,
  to_json, from_partial, create, empty, embed, fns,
}
use merkle_proof_service.Descriptor.Enums.Edition
use merkle_proof_service.Message.Statements.{pos, List, [], ◌∷◌, Wire, Runtime, or_present}
use merkle_proof_service.Message.Fields.{
  refl, arith, AllOption, IsLawful, switch, IsRuntime, string_type-IsScalar, member_type-IsScalar,
  Row, Message, free, scalar_row, OfRows, rows-Message, IsMember,
}

-- What is read of a message: a field that is `undefined` has its default.
unfoldable pub normal : FieldOptionsFeatureSupport → FieldOptionsFeatureSupport
normal m = record {
  edition_introduced = or_present m.edition_introduced (pos 0);
  edition_deprecated = or_present m.edition_deprecated (pos 0);
  deprecation_warning = or_present m.deprecation_warning "";
  edition_removed = or_present m.edition_removed (pos 0);
}

-- The values that the fields can hold.
abbrev pub IsValid : Wire → Runtime → FieldOptionsFeatureSupport → Type 0
IsValid w rt m =
    (AllOption (IsMember Edition.fns) m.edition_introduced)
    × (AllOption (IsMember Edition.fns) m.edition_deprecated)
    × (AllOption (IsMember Edition.fns) m.edition_removed)

module _ (w : Wire) (L : IsLawful w) (rt : Runtime) (R : IsRuntime rt) where
  abbrev pub rows : List (Row w rt FieldOptionsFeatureSupport FieldOptionsFeatureSupportPartial)
  rows =
      scalar_row w L rt
        (member_type-IsScalar w L rt R Edition.unrecognized Edition.fns Edition.Edition-IsEnum 0) 8
        (omega arith) "editionIntroduced" (λ m. m.edition_introduced)
        (λ m v. record m { edition_introduced = v }) (λ p. p.edition_introduced)
      ∷ scalar_row w L rt
          (member_type-IsScalar w L rt R Edition.unrecognized Edition.fns Edition.Edition-IsEnum 0)
          16 (omega arith) "editionDeprecated" (λ m. m.edition_deprecated)
          (λ m v. record m { edition_deprecated = v }) (λ p. p.edition_deprecated)
      ∷ scalar_row w L rt (string_type-IsScalar w L rt R) 26 (omega arith) "deprecationWarning"
          (λ m. m.deprecation_warning) (λ m v. record m { deprecation_warning = v })
          (λ p. p.deprecation_warning)
      ∷ scalar_row w L rt
          (member_type-IsScalar w L rt R Edition.unrecognized Edition.fns Edition.Edition-IsEnum 0)
          32 (omega arith) "editionRemoved" (λ m. m.edition_removed)
          (λ m v. record m { edition_removed = v }) (λ p. p.edition_removed)
      ∷ []

  pub FieldOptionsFeatureSupport-OfRows : OfRows (fns w rt) embed normal rows base empty
  unfolding encode decode from_json to_json from_partial create embed normal switch
  FieldOptionsFeatureSupport-OfRows = refl

  abbrev pub FieldOptionsFeatureSupport-Message :
      Message rt FieldOptionsFeatureSupport FieldOptionsFeatureSupportPartial
  FieldOptionsFeatureSupport-Message =
      rows-Message L (fns w rt) embed normal rows base empty FieldOptionsFeatureSupport-OfRows
        (IsValid w rt) (λ m h. (h.0, (h.1, (free m.deprecation_warning, (h.2, tt)))))
