-- ===== src/Descriptor/UninterpretedOption/Laws.antt =====
-- UninterpretedOption of gen/ts/google/protobuf/descriptor.ts: its fields, one by one.
use merkle_proof_service.Descriptor.UninterpretedOption.{
  UninterpretedOption, UninterpretedOptionPartial, base, encode, decode, from_json, to_json,
  from_partial, create, empty, embed, fns,
}
use merkle_proof_service.Descriptor.UninterpretedOptionNamePart
use merkle_proof_service.Message.Statements.{pos, List, [], ◌∷◌, map, Wire, Runtime, or_present}
use merkle_proof_service.Message.Fields.{
  refl, arith, ◌^◌, ◌<◌, IsWithin, All, AllOption, IsLawful, switch, IsRuntime, IsSafe,
  string_type-IsScalar, uint64_type-IsScalar, int64_type-IsScalar, double_type-IsScalar,
  bytes_type-IsScalar, Row, Message, free, scalar_row, Fitting, messages_row, OfRows, rows-Message,
}

-- What is read of a message: a field that is `undefined` has its default.
unfoldable pub normal : UninterpretedOption → UninterpretedOption
normal m = record {
  name = map UninterpretedOptionNamePart.Laws.normal m.name;
  identifier_value = or_present m.identifier_value "";
  positive_int_value = or_present m.positive_int_value 0;
  negative_int_value = or_present m.negative_int_value (pos 0);
  double_value = or_present m.double_value (pos 0);
  string_value = or_present m.string_value [];
  aggregate_value = or_present m.aggregate_value "";
}

-- The values that the fields can hold.
abbrev pub IsValid : Wire → Runtime → UninterpretedOption → Type 0
IsValid w rt m =
    (All
      (Fitting (UninterpretedOptionNamePart.Laws.IsValid w rt)
        (UninterpretedOptionNamePart.encode w rt))
      m.name)
    × (AllOption (λ n. n < 2 ^ 53) m.positive_int_value)
    × (AllOption IsSafe m.negative_int_value)
    × (AllOption (IsWithin (2 ^ 53)) m.double_value)
    × (AllOption (All (λ b. b < 256)) m.string_value)

module _ (w : Wire) (L : IsLawful w) (rt : Runtime) (R : IsRuntime rt) where
  abbrev pub rows : List (Row w rt UninterpretedOption UninterpretedOptionPartial)
  rows =
      messages_row w L
        (UninterpretedOptionNamePart.Laws.UninterpretedOptionNamePart-Message w L rt R) 18
        (omega arith) "name" (λ m. m.name) (λ m v. record m { name = v }) (λ m a b. refl)
        (λ p. p.name)
      ∷ scalar_row w L rt (string_type-IsScalar w L rt R) 26 (omega arith) "identifierValue"
          (λ m. m.identifier_value) (λ m v. record m { identifier_value = v })
          (λ p. p.identifier_value)
      ∷ scalar_row w L rt (uint64_type-IsScalar w L rt R) 32 (omega arith) "positiveIntValue"
          (λ m. m.positive_int_value) (λ m v. record m { positive_int_value = v })
          (λ p. p.positive_int_value)
      ∷ scalar_row w L rt (int64_type-IsScalar w L rt R) 40 (omega arith) "negativeIntValue"
          (λ m. m.negative_int_value) (λ m v. record m { negative_int_value = v })
          (λ p. p.negative_int_value)
      ∷ scalar_row w L rt (double_type-IsScalar w L rt R) 49 (omega arith) "doubleValue"
          (λ m. m.double_value) (λ m v. record m { double_value = v }) (λ p. p.double_value)
      ∷ scalar_row w L rt (bytes_type-IsScalar w L rt R) 58 (omega arith) "stringValue"
          (λ m. m.string_value) (λ m v. record m { string_value = v }) (λ p. p.string_value)
      ∷ scalar_row w L rt (string_type-IsScalar w L rt R) 66 (omega arith) "aggregateValue"
          (λ m. m.aggregate_value) (λ m v. record m { aggregate_value = v })
          (λ p. p.aggregate_value)
      ∷ []

  pub UninterpretedOption-OfRows : OfRows (fns w rt) embed normal rows base empty
  unfolding encode decode from_json to_json from_partial create embed normal switch
  UninterpretedOption-OfRows = refl

  abbrev pub UninterpretedOption-Message : Message rt UninterpretedOption UninterpretedOptionPartial
  UninterpretedOption-Message =
      rows-Message L (fns w rt) embed normal rows base empty UninterpretedOption-OfRows
        (IsValid w rt)
        (λ m h. (
          h.0,
          (free m.identifier_value, (h.1, (h.2, (h.3, (h.4, (free m.aggregate_value, tt)))))),
        ))
