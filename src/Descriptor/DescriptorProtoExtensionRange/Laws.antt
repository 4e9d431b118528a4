-- ===== src/Descriptor/DescriptorProtoExtensionRange/Laws.antt =====
-- DescriptorProto_ExtensionRange of gen/ts/google/protobuf/descriptor.ts: its fields, one by one.
use merkle_proof_service.Descriptor.DescriptorProtoExtensionRange.{
  DescriptorProtoExtensionRange, DescriptorProtoExtensionRangePartial, base, encode, decode,
  from_json, to_json, from_partial, create, empty, embed, fns,
}
use merkle_proof_service.Descriptor.ExtensionRangeOptions
use merkle_proof_service.Message.Statements.{
  pos, List, [], ◌∷◌, Wire, Runtime, map_option, or_present,
}
use merkle_proof_service.Message.Fields.{
  refl, arith, ◌^◌, IsWithin, AllOption, IsLawful, switch, IsRuntime, int32_type-IsScalar, Row,
  Message, scalar_row, Fitting, message_row, OfRows, rows-Message, IsReadAs, Message-IsReadAs,
}

-- What is read of a message: a field that is `undefined` has its default.
unfoldable pub normal : DescriptorProtoExtensionRange → DescriptorProtoExtensionRange
normal m = record {
  start = or_present m.start (pos 0);
  end = or_present m.end (pos 0);
  options = map_option ExtensionRangeOptions.Laws.normal m.options;
}

-- The values that the fields can hold.
abbrev pub IsValid : Wire → Runtime → DescriptorProtoExtensionRange → Type 0
IsValid w rt m =
    (AllOption (IsWithin (2 ^ 31)) m.start)
    × (AllOption (IsWithin (2 ^ 31)) m.end)
    × (AllOption
        (Fitting (ExtensionRangeOptions.Laws.IsValid w rt) (ExtensionRangeOptions.encode w rt))
        m.options)

module _ (w : Wire) (L : IsLawful w) (rt : Runtime) (R : IsRuntime rt) where
  abbrev pub rows :
      List (Row w rt DescriptorProtoExtensionRange DescriptorProtoExtensionRangePartial)
  rows =
      scalar_row w L rt (int32_type-IsScalar w L rt R) 8 (omega arith) "start" (λ m. m.start)
        (λ m v. record m { start = v }) (λ p. p.start)
      ∷ scalar_row w L rt (int32_type-IsScalar w L rt R) 16 (omega arith) "end" (λ m. m.end)
          (λ m v. record m { end = v }) (λ p. p.end)
      ∷ message_row w L (ExtensionRangeOptions.Laws.ExtensionRangeOptions-Message w L rt R) 26
          (omega arith) "options" (λ m. m.options) (λ m v. record m { options = v }) (λ m a b. refl)
          (λ p. p.options)
      ∷ []

  pub DescriptorProtoExtensionRange-OfRows : OfRows (fns w rt) embed normal rows base empty
  unfolding encode decode from_json to_json from_partial create embed normal switch
  DescriptorProtoExtensionRange-OfRows = refl

  abbrev pub DescriptorProtoExtensionRange-Message :
      Message rt DescriptorProtoExtensionRange DescriptorProtoExtensionRangePartial
  DescriptorProtoExtensionRange-Message =
      rows-Message L (fns w rt) embed normal rows base empty DescriptorProtoExtensionRange-OfRows
        (IsValid w rt) (λ m h. (h.0, (h.1, (h.2, tt))))

-- Over a lawful wire and runtime, every DescriptorProto_ExtensionRange whose start and end are
-- int32s and whose options are valid, of a length below 2 ^ 32, is read as `normal` of it, which
-- has the default for each `undefined`: from its bytes, as a whole buffer and inside a longer one,
-- from its JSON and from its partial form, also by `create`; and `encode` appends to what the
-- writer holds.
pub DescriptorProtoExtensionRange-IsReadAs :
    (w : Wire)
    → IsLawful w
    → (rt : Runtime) → IsRuntime rt
    → (m : DescriptorProtoExtensionRange) → IsValid w rt m
    → IsReadAs (fns w rt) embed m (normal m)
DescriptorProtoExtensionRange-IsReadAs w L rt R m valid =
    Message-IsReadAs R (DescriptorProtoExtensionRange-Message w L rt R) m valid
