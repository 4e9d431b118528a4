-- ===== src/Descriptor/EnumValueDescriptorProto/Laws.antt =====
-- EnumValueDescriptorProto of gen/ts/google/protobuf/descriptor.ts: its fields, one by one.
use merkle_proof_service.Descriptor.EnumValueDescriptorProto.{
  EnumValueDescriptorProto, EnumValueDescriptorProtoPartial, base, encode, decode, from_json,
  to_json, from_partial, create, empty, embed, fns,
}
use merkle_proof_service.Descriptor.EnumValueOptions
use merkle_proof_service.Message.Statements.{
  pos, List, [], ◌∷◌, Wire, Runtime, map_option, or_present,
}
use merkle_proof_service.Message.Fields.{
  refl, arith, ◌^◌, IsWithin, AllOption, IsLawful, switch, IsRuntime, string_type-IsScalar,
  int32_type-IsScalar, Row, Message, free, scalar_row, Fitting, message_row, OfRows, rows-Message,
}

-- What is read of a message: a field that is `undefined` has its default.
unfoldable pub normal : EnumValueDescriptorProto → EnumValueDescriptorProto
normal m = record {
  name = or_present m.name "";
  number = or_present m.number (pos 0);
  options = map_option EnumValueOptions.Laws.normal m.options;
}

-- The values that the fields can hold.
abbrev pub IsValid : Wire → Runtime → EnumValueDescriptorProto → Type 0
IsValid w rt m =
    (AllOption (IsWithin (2 ^ 31)) m.number)
    × (AllOption (Fitting (EnumValueOptions.Laws.IsValid w rt) (EnumValueOptions.encode w rt))
        m.options)

module _ (w : Wire) (L : IsLawful w) (rt : Runtime) (R : IsRuntime rt) where
  abbrev pub rows : List (Row w rt EnumValueDescriptorProto EnumValueDescriptorProtoPartial)
  rows =
      scalar_row w L rt (string_type-IsScalar w L rt R) 10 (omega arith) "name" (λ m. m.name)
        (λ m v. record m { name = v }) (λ p. p.name)
      ∷ scalar_row w L rt (int32_type-IsScalar w L rt R) 16 (omega arith) "number" (λ m. m.number)
          (λ m v. record m { number = v }) (λ p. p.number)
      ∷ message_row w L (EnumValueOptions.Laws.EnumValueOptions-Message w L rt R) 26 (omega arith)
          "options" (λ m. m.options) (λ m v. record m { options = v }) (λ m a b. refl)
          (λ p. p.options)
      ∷ []

  pub EnumValueDescriptorProto-OfRows : OfRows (fns w rt) embed normal rows base empty
  unfolding encode decode from_json to_json from_partial create embed normal switch
  EnumValueDescriptorProto-OfRows = refl

  abbrev pub EnumValueDescriptorProto-Message :
      Message rt EnumValueDescriptorProto EnumValueDescriptorProtoPartial
  EnumValueDescriptorProto-Message =
      rows-Message L (fns w rt) embed normal rows base empty EnumValueDescriptorProto-OfRows
        (IsValid w rt) (λ m h. (free m.name, (h.0, (h.1, tt))))
