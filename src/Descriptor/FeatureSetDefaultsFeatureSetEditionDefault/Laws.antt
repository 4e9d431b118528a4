-- ===== src/Descriptor/FeatureSetDefaultsFeatureSetEditionDefault/Laws.antt =====
-- FeatureSetDefaults_FeatureSetEditionDefault of gen/ts/google/protobuf/descriptor.ts: its fields, one by one.
use merkle_proof_service.Descriptor.FeatureSetDefaultsFeatureSetEditionDefault.{
  FeatureSetDefaultsFeatureSetEditionDefault, FeatureSetDefaultsFeatureSetEditionDefaultPartial,
  base, encode, decode, from_json, to_json, from_partial, create, empty, embed, fns,
}
use merkle_proof_service.Descriptor.FeatureSet
use merkle_proof_service.Descriptor.Enums.Edition
use merkle_proof_service.Message.Statements.{
  pos, List, [], ◌∷◌, Wire, Runtime, map_option, or_present,
}
use merkle_proof_service.Message.Fields.{
  refl, arith, AllOption, IsLawful, switch, IsRuntime, member_type-IsScalar, Row, Message,
  scalar_row, Fitting, message_row, OfRows, rows-Message, IsMember,
}

-- What is read of a message: a field that is `undefined` has its default.
unfoldable pub normal :
    FeatureSetDefaultsFeatureSetEditionDefault → FeatureSetDefaultsFeatureSetEditionDefault
normal m = record {
  edition = or_present m.edition (pos 0);
  overridable_features = map_option FeatureSet.Laws.normal m.overridable_features;
  fixed_features = map_option FeatureSet.Laws.normal m.fixed_features;
}

-- The values that the fields can hold.
abbrev pub IsValid : Wire → Runtime → FeatureSetDefaultsFeatureSetEditionDefault → Type 0
IsValid w rt m =
    (AllOption (IsMember Edition.fns) m.edition)
    × (AllOption (Fitting (FeatureSet.Laws.IsValid w rt) (FeatureSet.encode w rt))
        m.overridable_features)
    × (AllOption (Fitting (FeatureSet.Laws.IsValid w rt) (FeatureSet.encode w rt)) m.fixed_features)

module _ (w : Wire) (L : IsLawful w) (rt : Runtime) (R : IsRuntime rt) where
  abbrev pub rows : List (
      Row w rt FeatureSetDefaultsFeatureSetEditionDefault
        FeatureSetDefaultsFeatureSetEditionDefaultPartial)
  rows =
      scalar_row w L rt
        (member_type-IsScalar w L rt R Edition.unrecognized Edition.fns Edition.Edition-IsEnum 0) 24
        (omega arith) "edition" (λ m. m.edition) (λ m v. record m { edition = v }) (λ p. p.edition)
      ∷ message_row w L (FeatureSet.Laws.FeatureSet-Message w L rt R) 34 (omega arith)
          "overridableFeatures" (λ m. m.overridable_features)
          (λ m v. record m { overridable_features = v }) (λ m a b. refl)
          (λ p. p.overridable_features)
      ∷ message_row w L (FeatureSet.Laws.FeatureSet-Message w L rt R) 42 (omega arith)
          "fixedFeatures" (λ m. m.fixed_features) (λ m v. record m { fixed_features = v })
          (λ m a b. refl) (λ p. p.fixed_features)
      ∷ []

  pub FeatureSetDefaultsFeatureSetEditionDefault-OfRows :
      OfRows (fns w rt) embed normal rows base empty
  unfolding encode decode from_json to_json from_partial create embed normal switch
  FeatureSetDefaultsFeatureSetEditionDefault-OfRows = refl

  abbrev pub FeatureSetDefaultsFeatureSetEditionDefault-Message :
      Message rt FeatureSetDefaultsFeatureSetEditionDefault
        FeatureSetDefaultsFeatureSetEditionDefaultPartial
  FeatureSetDefaultsFeatureSetEditionDefault-Message =
      rows-Message L (fns w rt) embed normal rows base empty
        FeatureSetDefaultsFeatureSetEditionDefault-OfRows (IsValid w rt)
        (λ m h. (h.0, (h.1, (h.2, tt))))
