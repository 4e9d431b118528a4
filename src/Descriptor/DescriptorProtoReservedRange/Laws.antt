-- ===== src/Descriptor/DescriptorProtoReservedRange/Laws.antt =====
-- DescriptorProto_ReservedRange of gen/ts/google/protobuf/descriptor.ts: its fields, one by one.
use merkle_proof_service.Descriptor.DescriptorProtoReservedRange.{
  DescriptorProtoReservedRange, DescriptorProtoReservedRangePartial, base, encode, decode,
  from_json, to_json, from_partial, create, empty, embed, fns,
}
use merkle_proof_service.Message.Statements.{pos, List, [], ◌∷◌, Wire, Runtime, or_present}
use merkle_proof_service.Message.Fields.{
  refl, arith, ◌^◌, IsWithin, AllOption, IsLawful, switch, IsRuntime, int32_type-IsScalar, Row,
  Message, scalar_row, OfRows, rows-Message,
}

-- What is read of a message: a field that is `undefined` has its default.
unfoldable pub normal : DescriptorProtoReservedRange → DescriptorProtoReservedRange
normal m = record { start = or_present m.start (pos 0); end = or_present m.end (pos 0) }

-- The values that the fields can hold.
abbrev pub IsValid : Wire → Runtime → DescriptorProtoReservedRange → Type 0
IsValid w rt m = (AllOption (IsWithin (2 ^ 31)) m.start) × (AllOption (IsWithin (2 ^ 31)) m.end)

module _ (w : Wire) (L : IsLawful w) (rt : Runtime) (R : IsRuntime rt) where
  abbrev pub rows : List (Row w rt DescriptorProtoReservedRange DescriptorProtoReservedRangePartial)
  rows =
      scalar_row w L rt (int32_type-IsScalar w L rt R) 8 (omega arith) "start" (λ m. m.start)
        (λ m v. record m { start = v }) (λ p. p.start)
      ∷ scalar_row w L rt (int32_type-IsScalar w L rt R) 16 (omega arith) "end" (λ m. m.end)
          (λ m v. record m { end = v }) (λ p. p.end)
      ∷ []

  pub DescriptorProtoReservedRange-OfRows : OfRows (fns w rt) embed normal rows base empty
  unfolding encode decode from_json to_json from_partial create embed normal switch
  DescriptorProtoReservedRange-OfRows = refl

  abbrev pub DescriptorProtoReservedRange-Message :
      Message rt DescriptorProtoReservedRange DescriptorProtoReservedRangePartial
  DescriptorProtoReservedRange-Message =
      rows-Message L (fns w rt) embed normal rows base empty DescriptorProtoReservedRange-OfRows
        (IsValid w rt) (λ m h. (h.0, (h.1, tt)))
