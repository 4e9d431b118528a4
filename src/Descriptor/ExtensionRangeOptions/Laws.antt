-- ===== src/Descriptor/ExtensionRangeOptions/Laws.antt =====
-- ExtensionRangeOptions of gen/ts/google/protobuf/descriptor.ts: its fields, one by one.
use merkle_proof_service.Descriptor.ExtensionRangeOptions.{
  ExtensionRangeOptions, ExtensionRangeOptionsPartial, base, encode, decode, from_json, to_json,
  from_partial, create, empty, embed, fns,
}
use merkle_proof_service.Descriptor.ExtensionRangeOptionsDeclaration
use merkle_proof_service.Descriptor.FeatureSet
use merkle_proof_service.Descriptor.UninterpretedOption
use merkle_proof_service.Descriptor.Enums.ExtensionRangeOptionsVerificationState
use merkle_proof_service.Message.Statements.{
  pos, List, [], ◌∷◌, map, Wire, Runtime, map_option, or_present,
}
use merkle_proof_service.Message.Fields.{
  refl, arith, All, AllOption, IsLawful, switch, IsRuntime, member_type-IsScalar, Row, Message,
  scalar_row, Fitting, message_row, messages_row, OfRows, rows-Message, IsMember,
}

-- What is read of a message: a field that is `undefined` has its default.
unfoldable pub normal : ExtensionRangeOptions → ExtensionRangeOptions
normal m = record {
  uninterpreted_option = map UninterpretedOption.Laws.normal m.uninterpreted_option;
  declaration = map ExtensionRangeOptionsDeclaration.Laws.normal m.declaration;
  features = map_option FeatureSet.Laws.normal m.features;
  verification = or_present m.verification (pos 1);
}

-- The values that the fields can hold.
abbrev pub IsValid : Wire → Runtime → ExtensionRangeOptions → Type 0
IsValid w rt m =
    (All (Fitting (UninterpretedOption.Laws.IsValid w rt) (UninterpretedOption.encode w rt))
      m.uninterpreted_option)
    × (All
        (Fitting (ExtensionRangeOptionsDeclaration.Laws.IsValid w rt)
          (ExtensionRangeOptionsDeclaration.encode w rt))
        m.declaration)
    × (AllOption (Fitting (FeatureSet.Laws.IsValid w rt) (FeatureSet.encode w rt)) m.features)
    × (AllOption (IsMember ExtensionRangeOptionsVerificationState.fns) m.verification)

module _ (w : Wire) (L : IsLawful w) (rt : Runtime) (R : IsRuntime rt) where
  abbrev pub rows : List (Row w rt ExtensionRangeOptions ExtensionRangeOptionsPartial)
  rows =
      messages_row w L (UninterpretedOption.Laws.UninterpretedOption-Message w L rt R) 7994
        (omega arith) "uninterpretedOption" (λ m. m.uninterpreted_option)
        (λ m v. record m { uninterpreted_option = v }) (λ m a b. refl) (λ p. p.uninterpreted_option)
      ∷ messages_row w L
          (ExtensionRangeOptionsDeclaration.Laws.ExtensionRangeOptionsDeclaration-Message w L rt R)
          18 (omega arith) "declaration" (λ m. m.declaration) (λ m v. record m { declaration = v })
          (λ m a b. refl) (λ p. p.declaration)
      ∷ message_row w L (FeatureSet.Laws.FeatureSet-Message w L rt R) 402 (omega arith) "features"
          (λ m. m.features) (λ m v. record m { features = v }) (λ m a b. refl) (λ p. p.features)
      ∷ scalar_row w L rt
          (member_type-IsScalar w L rt R ExtensionRangeOptionsVerificationState.unrecognized
            ExtensionRangeOptionsVerificationState.fns
            ExtensionRangeOptionsVerificationState.ExtensionRangeOptionsVerificationState-IsEnum 1)
          24 (omega arith) "verification" (λ m. m.verification)
          (λ m v. record m { verification = v }) (λ p. p.verification)
      ∷ []

  pub ExtensionRangeOptions-OfRows : OfRows (fns w rt) embed normal rows base empty
  unfolding encode decode from_json to_json from_partial create embed normal switch
  ExtensionRangeOptions-OfRows = refl

  abbrev pub ExtensionRangeOptions-Message :
      Message rt ExtensionRangeOptions ExtensionRangeOptionsPartial
  ExtensionRangeOptions-Message =
      rows-Message L (fns w rt) embed normal rows base empty ExtensionRangeOptions-OfRows
        (IsValid w rt) (λ m h. (h.0, (h.1, (h.2, (h.3, tt)))))
