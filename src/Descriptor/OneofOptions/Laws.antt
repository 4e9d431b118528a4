-- ===== src/Descriptor/OneofOptions/Laws.antt =====
-- OneofOptions of gen/ts/google/protobuf/descriptor.ts: its fields, one by one.
use merkle_proof_service.Descriptor.OneofOptions.{
  OneofOptions, OneofOptionsPartial, base, encode, decode, from_json, to_json, from_partial, create,
  empty, embed, fns,
}
use merkle_proof_service.Descriptor.FeatureSet
use merkle_proof_service.Descriptor.UninterpretedOption
use merkle_proof_service.Message.Statements.{List, [], ◌∷◌, map, Wire, Runtime, map_option}
use merkle_proof_service.Message.Fields.{
  refl, arith, All, AllOption, IsLawful, switch, IsRuntime, Row, Message, Fitting, message_row,
  messages_row, OfRows, rows-Message,
}

-- What is read of a message: a field that is `undefined` has its default.
unfoldable pub normal : OneofOptions → OneofOptions
normal m = record {
  features = map_option FeatureSet.Laws.normal m.features;
  uninterpreted_option = map UninterpretedOption.Laws.normal m.uninterpreted_option;
}

-- The values that the fields can hold.
abbrev pub IsValid : Wire → Runtime → OneofOptions → Type 0
IsValid w rt m =
    (AllOption (Fitting (FeatureSet.Laws.IsValid w rt) (FeatureSet.encode w rt)) m.features)
    × (All (Fitting (UninterpretedOption.Laws.IsValid w rt) (UninterpretedOption.encode w rt))
        m.uninterpreted_option)

module _ (w : Wire) (L : IsLawful w) (rt : Runtime) (R : IsRuntime rt) where
  abbrev pub rows : List (Row w rt OneofOptions OneofOptionsPartial)
  rows =
      message_row w L (FeatureSet.Laws.FeatureSet-Message w L rt R) 10 (omega arith) "features"
        (λ m. m.features) (λ m v. record m { features = v }) (λ m a b. refl) (λ p. p.features)
      ∷ messages_row w L (UninterpretedOption.Laws.UninterpretedOption-Message w L rt R) 7994
          (omega arith) "uninterpretedOption" (λ m. m.uninterpreted_option)
          (λ m v. record m { uninterpreted_option = v }) (λ m a b. refl)
          (λ p. p.uninterpreted_option)
      ∷ []

  pub OneofOptions-OfRows : OfRows (fns w rt) embed normal rows base empty
  unfolding encode decode from_json to_json from_partial create embed normal switch
  OneofOptions-OfRows = refl

  abbrev pub OneofOptions-Message : Message rt OneofOptions OneofOptionsPartial
  OneofOptions-Message =
      rows-Message L (fns w rt) embed normal rows base empty OneofOptions-OfRows (IsValid w rt)
        (λ m h. (h.0, (h.1, tt)))
