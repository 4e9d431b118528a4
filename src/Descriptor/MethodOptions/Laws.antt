-- ===== src/Descriptor/MethodOptions/Laws.antt =====
-- MethodOptions of gen/ts/google/protobuf/descriptor.ts: its fields, one by one.
use merkle_proof_service.Descriptor.MethodOptions.{
  MethodOptions, MethodOptionsPartial, base, encode, decode, from_json, to_json, from_partial,
  create, empty, embed, fns,
}
use merkle_proof_service.Descriptor.FeatureSet
use merkle_proof_service.Descriptor.UninterpretedOption
use merkle_proof_service.Descriptor.Enums.MethodOptionsIdempotencyLevel
use merkle_proof_service.Message.Statements.{
  pos, false, List, [], ◌∷◌, map, Wire, Runtime, map_option, or_present,
}
use merkle_proof_service.Message.Fields.{
  refl, arith, All, AllOption, IsLawful, switch, IsRuntime, bool_type-IsScalar,
  member_type-IsScalar, Row, Message, free, scalar_row, Fitting, message_row, messages_row, OfRows,
  rows-Message, IsMember,
}

-- What is read of a message: a field that is `undefined` has its default.
unfoldable pub normal : MethodOptions → MethodOptions
normal m = record {
  deprecated = or_present m.deprecated false;
  idempotency_level = or_present m.idempotency_level (pos 0);
  features = map_option FeatureSet.Laws.normal m.features;
  uninterpreted_option = map UninterpretedOption.Laws.normal m.uninterpreted_option;
}

-- The values that the fields can hold.
abbrev pub IsValid : Wire → Runtime → MethodOptions → Type 0
IsValid w rt m =
    (AllOption (IsMember MethodOptionsIdempotencyLevel.fns) m.idempotency_level)
    × (AllOption (Fitting (FeatureSet.Laws.IsValid w rt) (FeatureSet.encode w rt)) m.features)
    × (All (Fitting (UninterpretedOption.Laws.IsValid w rt) (UninterpretedOption.encode w rt))
        m.uninterpreted_option)

module _ (w : Wire) (L : IsLawful w) (rt : Runtime) (R : IsRuntime rt) where
  abbrev pub rows : List (Row w rt MethodOptions MethodOptionsPartial)
  rows =
      scalar_row w L rt (bool_type-IsScalar w L rt R false) 264 (omega arith) "deprecated"
        (λ m. m.deprecated) (λ m v. record m { deprecated = v }) (λ p. p.deprecated)
      ∷ scalar_row w L rt
          (member_type-IsScalar w L rt R MethodOptionsIdempotencyLevel.unrecognized
            MethodOptionsIdempotencyLevel.fns
            MethodOptionsIdempotencyLevel.MethodOptionsIdempotencyLevel-IsEnum 0)
          272 (omega arith) "idempotencyLevel" (λ m. m.idempotency_level)
          (λ m v. record m { idempotency_level = v }) (λ p. p.idempotency_level)
      ∷ message_row w L (FeatureSet.Laws.FeatureSet-Message w L rt R) 282 (omega arith) "features"
          (λ m. m.features) (λ m v. record m { features = v }) (λ m a b. refl) (λ p. p.features)
      ∷ messages_row w L (UninterpretedOption.Laws.UninterpretedOption-Message w L rt R) 7994
          (omega arith) "uninterpretedOption" (λ m. m.uninterpreted_option)
          (λ m v. record m { uninterpreted_option = v }) (λ m a b. refl)
          (λ p. p.uninterpreted_option)
      ∷ []

  pub MethodOptions-OfRows : OfRows (fns w rt) embed normal rows base empty
  unfolding encode decode from_json to_json from_partial create embed normal switch
  MethodOptions-OfRows = refl

  abbrev pub MethodOptions-Message : Message rt MethodOptions MethodOptionsPartial
  MethodOptions-Message =
      rows-Message L (fns w rt) embed normal rows base empty MethodOptions-OfRows (IsValid w rt)
        (λ m h. (free m.deprecated, (h.0, (h.1, (h.2, tt)))))
