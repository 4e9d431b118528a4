-- ===== src/Descriptor/UninterpretedOptionNamePart/Laws.antt =====
-- UninterpretedOption_NamePart of gen/ts/google/protobuf/descriptor.ts: its fields, one by one.
use merkle_proof_service.Descriptor.UninterpretedOptionNamePart.{
  UninterpretedOptionNamePart, UninterpretedOptionNamePartPartial, base, encode, decode, from_json,
  to_json, from_partial, create, empty, embed, fns,
}
use merkle_proof_service.Message.Statements.{List, [], ◌∷◌, Wire, Runtime}
use merkle_proof_service.Message.Fields.{
  refl, arith, IsLawful, switch, IsRuntime, Row, Message, string_row, bool_row, OfRows,
  rows-Message,
}

-- What is read of a message: a field that is `undefined` has its default.
unfoldable pub normal : UninterpretedOptionNamePart → UninterpretedOptionNamePart
normal m = record { name_part = m.name_part; is_extension = m.is_extension }

-- The values that the fields can hold.
abbrev pub IsValid : Wire → Runtime → UninterpretedOptionNamePart → Type 0
IsValid w rt m = Unit

module _ (w : Wire) (L : IsLawful w) (rt : Runtime) (R : IsRuntime rt) where
  abbrev pub rows : List (Row w rt UninterpretedOptionNamePart UninterpretedOptionNamePartPartial)
  rows =
      string_row w L rt 10 (omega arith) "namePart" (λ m. m.name_part)
        (λ m v. record m { name_part = v }) (λ m a b. refl) (λ p. p.name_part)
      ∷ bool_row w L rt 16 (omega arith) "isExtension" (λ m. m.is_extension)
          (λ m v. record m { is_extension = v }) (λ m a b. refl) (λ p. p.is_extension)
      ∷ []

  pub UninterpretedOptionNamePart-OfRows : OfRows (fns w rt) embed normal rows base empty
  unfolding encode decode from_json to_json from_partial create embed normal switch
  UninterpretedOptionNamePart-OfRows = refl

  abbrev pub UninterpretedOptionNamePart-Message :
      Message rt UninterpretedOptionNamePart UninterpretedOptionNamePartPartial
  UninterpretedOptionNamePart-Message =
      rows-Message L (fns w rt) embed normal rows base empty UninterpretedOptionNamePart-OfRows
        (IsValid w rt) (λ m h. (tt, (tt, tt)))
