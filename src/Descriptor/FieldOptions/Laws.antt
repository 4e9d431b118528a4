-- ===== src/Descriptor/FieldOptions/Laws.antt =====
-- FieldOptions of gen/ts/google/protobuf/descriptor.ts: its fields, one by one.
use merkle_proof_service.Descriptor.FieldOptions.{
  FieldOptions, FieldOptionsPartial, base, encode, decode, from_json, to_json, from_partial, create,
  empty, embed, fns,
}
use merkle_proof_service.Descriptor.FeatureSet
use merkle_proof_service.Descriptor.FieldOptionsEditionDefault
use merkle_proof_service.Descriptor.FieldOptionsFeatureSupport
use merkle_proof_service.Descriptor.UninterpretedOption
use merkle_proof_service.Descriptor.Enums.FieldOptionsCType
use merkle_proof_service.Descriptor.Enums.FieldOptionsJsType
use merkle_proof_service.Descriptor.Enums.FieldOptionsOptionRetention
use merkle_proof_service.Descriptor.Enums.FieldOptionsOptionTargetType
use merkle_proof_service.Message.Statements.{
  pos, false, List, [], ◌∷◌, map, Wire, Runtime, map_option, or_present,
}
use merkle_proof_service.Message.Fields.{
  refl, arith, All, AllOption, IsLawful, switch, IsRuntime, bool_type-IsScalar,
  member_type-IsScalar, Row, Message, free, scalar_row, Fitting, message_row, messages_row, OfRows,
  rows-Message, IsMember, FitsPacked, packed_row,
}

-- What is read of a message: a field that is `undefined` has its default.
unfoldable pub normal : FieldOptions → FieldOptions
normal m = record {
  ctype = or_present m.ctype (pos 0);
  packed = or_present m.packed false;
  jstype = or_present m.jstype (pos 0);
  lazy = or_present m.lazy false;
  unverified_lazy = or_present m.unverified_lazy false;
  deprecated = or_present m.deprecated false;
  weak = or_present m.weak false;
  debug_redact = or_present m.debug_redact false;
  retention = or_present m.retention (pos 0);
  targets = m.targets;
  edition_defaults = map FieldOptionsEditionDefault.Laws.normal m.edition_defaults;
  features = map_option FeatureSet.Laws.normal m.features;
  feature_support = map_option FieldOptionsFeatureSupport.Laws.normal m.feature_support;
  uninterpreted_option = map UninterpretedOption.Laws.normal m.uninterpreted_option;
}

-- The values that the fields can hold.
abbrev pub IsValid : Wire → Runtime → FieldOptions → Type 0
IsValid w rt m =
    (AllOption (IsMember FieldOptionsCType.fns) m.ctype)
    × (AllOption (IsMember FieldOptionsJsType.fns) m.jstype)
    × (AllOption (IsMember FieldOptionsOptionRetention.fns) m.retention)
    × (FitsPacked w (IsMember FieldOptionsOptionTargetType.fns) m.targets)
    × (All
        (Fitting (FieldOptionsEditionDefault.Laws.IsValid w rt)
          (FieldOptionsEditionDefault.encode w rt))
        m.edition_defaults)
    × (AllOption (Fitting (FeatureSet.Laws.IsValid w rt) (FeatureSet.encode w rt)) m.features)
    × (AllOption
        (Fitting (FieldOptionsFeatureSupport.Laws.IsValid w rt)
          (FieldOptionsFeatureSupport.encode w rt))
        m.feature_support)
    × (All (Fitting (UninterpretedOption.Laws.IsValid w rt) (UninterpretedOption.encode w rt))
        m.uninterpreted_option)

module _ (w : Wire) (L : IsLawful w) (rt : Runtime) (R : IsRuntime rt) where
  abbrev pub rows : List (Row w rt FieldOptions FieldOptionsPartial)
  rows =
      scalar_row w L rt
        (member_type-IsScalar w L rt R FieldOptionsCType.unrecognized FieldOptionsCType.fns
          FieldOptionsCType.FieldOptionsCType-IsEnum 0)
        8 (omega arith) "ctype" (λ m. m.ctype) (λ m v. record m { ctype = v }) (λ p. p.ctype)
      ∷ scalar_row w L rt (bool_type-IsScalar w L rt R false) 16 (omega arith) "packed"
          (λ m. m.packed) (λ m v. record m { packed = v }) (λ p. p.packed)
      ∷ scalar_row w L rt
          (member_type-IsScalar w L rt R FieldOptionsJsType.unrecognized FieldOptionsJsType.fns
            FieldOptionsJsType.FieldOptionsJsType-IsEnum 0)
          48 (omega arith) "jstype" (λ m. m.jstype) (λ m v. record m { jstype = v }) (λ p. p.jstype)
      ∷ scalar_row w L rt (bool_type-IsScalar w L rt R false) 40 (omega arith) "lazy" (λ m. m.lazy)
          (λ m v. record m { lazy = v }) (λ p. p.lazy)
      ∷ scalar_row w L rt (bool_type-IsScalar w L rt R false) 120 (omega arith) "unverifiedLazy"
          (λ m. m.unverified_lazy) (λ m v. record m { unverified_lazy = v })
          (λ p. p.unverified_lazy)
      ∷ scalar_row w L rt (bool_type-IsScalar w L rt R false) 24 (omega arith) "deprecated"
          (λ m. m.deprecated) (λ m v. record m { deprecated = v }) (λ p. p.deprecated)
      ∷ scalar_row w L rt (bool_type-IsScalar w L rt R false) 80 (omega arith) "weak" (λ m. m.weak)
          (λ m v. record m { weak = v }) (λ p. p.weak)
      ∷ scalar_row w L rt (bool_type-IsScalar w L rt R false) 128 (omega arith) "debugRedact"
          (λ m. m.debug_redact) (λ m v. record m { debug_redact = v }) (λ p. p.debug_redact)
      ∷ scalar_row w L rt
          (member_type-IsScalar w L rt R FieldOptionsOptionRetention.unrecognized
            FieldOptionsOptionRetention.fns
            FieldOptionsOptionRetention.FieldOptionsOptionRetention-IsEnum 0)
          136 (omega arith) "retention" (λ m. m.retention) (λ m v. record m { retention = v })
          (λ p. p.retention)
      ∷ packed_row w L rt
          (member_type-IsScalar w L rt R FieldOptionsOptionTargetType.unrecognized
            FieldOptionsOptionTargetType.fns
            FieldOptionsOptionTargetType.FieldOptionsOptionTargetType-IsEnum 0)
          152 154 (omega arith) "targets" (λ m. m.targets) (λ m v. record m { targets = v })
          (λ m a b. refl) (λ p. p.targets)
      ∷ messages_row w L
          (FieldOptionsEditionDefault.Laws.FieldOptionsEditionDefault-Message w L rt R) 162
          (omega arith) "editionDefaults" (λ m. m.edition_defaults)
          (λ m v. record m { edition_defaults = v }) (λ m a b. refl) (λ p. p.edition_defaults)
      ∷ message_row w L (FeatureSet.Laws.FeatureSet-Message w L rt R) 170 (omega arith) "features"
          (λ m. m.features) (λ m v. record m { features = v }) (λ m a b. refl) (λ p. p.features)
      ∷ message_row w L
          (FieldOptionsFeatureSupport.Laws.FieldOptionsFeatureSupport-Message w L rt R) 178
          (omega arith) "featureSupport" (λ m. m.feature_support)
          (λ m v. record m { feature_support = v }) (λ m a b. refl) (λ p. p.feature_support)
      ∷ messages_row w L (UninterpretedOption.Laws.UninterpretedOption-Message w L rt R) 7994
          (omega arith) "uninterpretedOption" (λ m. m.uninterpreted_option)
          (λ m v. record m { uninterpreted_option = v }) (λ m a b. refl)
          (λ p. p.uninterpreted_option)
      ∷ []

  pub FieldOptions-OfRows : OfRows (fns w rt) embed normal rows base empty
  unfolding encode decode from_json to_json from_partial create embed normal switch
  FieldOptions-OfRows = refl

  abbrev pub FieldOptions-Message : Message rt FieldOptions FieldOptionsPartial
  FieldOptions-Message =
      rows-Message L (fns w rt) embed normal rows base empty FieldOptions-OfRows (IsValid w rt)
        (λ m h. (
          h.0,
          (
            free m.packed,
            (
              h.1,
              (
                free m.lazy,
                (
                  free m.unverified_lazy,
                  (
                    free m.deprecated,
                    (
                      free m.weak,
                      (free m.debug_redact, (h.2, (h.3, (h.4, (h.5, (h.6, (h.7, tt))))))),
                    ),
                  ),
                ),
              ),
            ),
          ),
        ))
