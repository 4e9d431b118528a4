-- ===== src/Descriptor/EnumOptions/Laws.antt =====
-- EnumOptions of gen/ts/google/protobuf/descriptor.ts: its fields, one by one.
use merkle_proof_service.Descriptor.EnumOptions.{
  EnumOptions, EnumOptionsPartial, base, encode, decode, from_json, to_json, from_partial, create,
  empty, embed, fns,
}
use merkle_proof_service.Descriptor.FeatureSet
use merkle_proof_service.Descriptor.UninterpretedOption
use merkle_proof_service.Message.Statements.{
  false, List, [], ◌∷◌, map, Wire, Runtime, map_option, or_present,
}
use merkle_proof_service.Message.Fields.{
  refl, arith, All, AllOption, IsLawful, switch, IsRuntime, bool_type-IsScalar, Row, Message, free,
  scalar_row, Fitting, message_row, messages_row, OfRows, rows-Message,
}

-- What is read of a message: a field that is `undefined` has its default.
unfoldable pub normal : EnumOptions → EnumOptions
normal m = record {
  allow_alias = or_present m.allow_alias false;
  deprecated = or_present m.deprecated false;
  deprecated_legacy_json_field_conflicts =
      or_present m.deprecated_legacy_json_field_conflicts false;
  features = map_option FeatureSet.Laws.normal m.features;
  uninterpreted_option = map UninterpretedOption.Laws.normal m.uninterpreted_option;
}

-- The values that the fields can hold.
abbrev pub IsValid : Wire → Runtime → EnumOptions → Type 0
IsValid w rt m =
    (AllOption (Fitting (FeatureSet.Laws.IsValid w rt) (FeatureSet.encode w rt)) m.features)
    × (All (Fitting (UninterpretedOption.Laws.IsValid w rt) (UninterpretedOption.encode w rt))
        m.uninterpreted_option)

module _ (w : Wire) (L : IsLawful w) (rt : Runtime) (R : IsRuntime rt) where
  abbrev pub rows : List (Row w rt EnumOptions EnumOptionsPartial)
  rows =
      scalar_row w L rt (bool_type-IsScalar w L rt R false) 16 (omega arith) "allowAlias"
        (λ m. m.allow_alias) (λ m v. record m { allow_alias = v }) (λ p. p.allow_alias)
      ∷ scalar_row w L rt (bool_type-IsScalar w L rt R false) 24 (omega arith) "deprecated"
          (λ m. m.deprecated) (λ m v. record m { deprecated = v }) (λ p. p.deprecated)
      ∷ scalar_row w L rt (bool_type-IsScalar w L rt R false) 48 (omega arith)
          "deprecatedLegacyJsonFieldConflicts" (λ m. m.deprecated_legacy_json_field_conflicts)
          (λ m v. record m { deprecated_legacy_json_field_conflicts = v })
          (λ p. p.deprecated_legacy_json_field_conflicts)
      ∷ message_row w L (FeatureSet.Laws.FeatureSet-Message w L rt R) 58 (omega arith) "features"
          (λ m. m.features) (λ m v. record m { features = v }) (λ m a b. refl) (λ p. p.features)
      ∷ messages_row w L (UninterpretedOption.Laws.UninterpretedOption-Message w L rt R) 7994
          (omega arith) "uninterpretedOption" (λ m. m.uninterpreted_option)
          (λ m v. record m { uninterpreted_option = v }) (λ m a b. refl)
          (λ p. p.uninterpreted_option)
      ∷ []

  pub EnumOptions-OfRows : OfRows (fns w rt) embed normal rows base empty
  unfolding encode decode from_json to_json from_partial create embed normal switch
  EnumOptions-OfRows = refl

  abbrev pub EnumOptions-Message : Message rt EnumOptions EnumOptionsPartial
  EnumOptions-Message =
      rows-Message L (fns w rt) embed normal rows base empty EnumOptions-OfRows (IsValid w rt)
        (λ m h. (
          free m.allow_alias,
          (free m.deprecated, (free m.deprecated_legacy_json_field_conflicts, (h.0, (h.1, tt)))),
        ))
