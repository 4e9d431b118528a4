-- ===== src/Descriptor/EnumValueOptions/Laws.antt =====
-- EnumValueOptions of gen/ts/google/protobuf/descriptor.ts: its fields, one by one.
use merkle_proof_service.Descriptor.EnumValueOptions.{
  EnumValueOptions, EnumValueOptionsPartial, base, encode, decode, from_json, to_json, from_partial,
  create, empty, embed, fns,
}
use merkle_proof_service.Descriptor.FeatureSet
use merkle_proof_service.Descriptor.FieldOptionsFeatureSupport
use merkle_proof_service.Descriptor.UninterpretedOption
use merkle_proof_service.Message.Statements.{
  false, List, [], ◌∷◌, map, Wire, Runtime, map_option, or_present,
}
use merkle_proof_service.Message.Fields.{
  refl, arith, All, AllOption, IsLawful, switch, IsRuntime, bool_type-IsScalar, Row, Message, free,
  scalar_row, Fitting, message_row, messages_row, OfRows, rows-Message,
}

-- What is read of a message: a field that is `undefined` has its default.
unfoldable pub normal : EnumValueOptions → EnumValueOptions
normal m = record {
  deprecated = or_present m.deprecated false;
  features = map_option FeatureSet.Laws.normal m.features;
  debug_redact = or_present m.debug_redact false;
  feature_support = map_option FieldOptionsFeatureSupport.Laws.normal m.feature_support;
  uninterpreted_option = map UninterpretedOption.Laws.normal m.uninterpreted_option;
}

-- The values that the fields can hold.
abbrev pub IsValid : Wire → Runtime → EnumValueOptions → Type 0
IsValid w rt m =
    (AllOption (Fitting (FeatureSet.Laws.IsValid w rt) (FeatureSet.encode w rt)) m.features)
    × (AllOption
        (Fitting (FieldOptionsFeatureSupport.Laws.IsValid w rt)
          (FieldOptionsFeatureSupport.encode w rt))
        m.feature_support)
    × (All (Fitting (UninterpretedOption.Laws.IsValid w rt) (UninterpretedOption.encode w rt))
        m.uninterpreted_option)

module _ (w : Wire) (L : IsLawful w) (rt : Runtime) (R : IsRuntime rt) where
  abbrev pub rows : List (Row w rt EnumValueOptions EnumValueOptionsPartial)
  rows =
      scalar_row w L rt (bool_type-IsScalar w L rt R false) 8 (omega arith) "deprecated"
        (λ m. m.deprecated) (λ m v. record m { deprecated = v }) (λ p. p.deprecated)
      ∷ message_row w L (FeatureSet.Laws.FeatureSet-Message w L rt R) 18 (omega arith) "features"
          (λ m. m.features) (λ m v. record m { features = v }) (λ m a b. refl) (λ p. p.features)
      ∷ scalar_row w L rt (bool_type-IsScalar w L rt R false) 24 (omega arith) "debugRedact"
          (λ m. m.debug_redact) (λ m v. record m { debug_redact = v }) (λ p. p.debug_redact)
      ∷ message_row w L
          (FieldOptionsFeatureSupport.Laws.FieldOptionsFeatureSupport-Message w L rt R) 34
          (omega arith) "featureSupport" (λ m. m.feature_support)
          (λ m v. record m { feature_support = v }) (λ m a b. refl) (λ p. p.feature_support)
      ∷ messages_row w L (UninterpretedOption.Laws.UninterpretedOption-Message w L rt R) 7994
          (omega arith) "uninterpretedOption" (λ m. m.uninterpreted_option)
          (λ m v. record m { uninterpreted_option = v }) (λ m a b. refl)
          (λ p. p.uninterpreted_option)
      ∷ []

  pub EnumValueOptions-OfRows : OfRows (fns w rt) embed normal rows base empty
  unfolding encode decode from_json to_json from_partial create embed normal switch
  EnumValueOptions-OfRows = refl

  abbrev pub EnumValueOptions-Message : Message rt EnumValueOptions EnumValueOptionsPartial
  EnumValueOptions-Message =
      rows-Message L (fns w rt) embed normal rows base empty EnumValueOptions-OfRows (IsValid w rt)
        (λ m h. (free m.deprecated, (h.0, (free m.debug_redact, (h.1, (h.2, tt))))))
