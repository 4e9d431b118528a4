-- ===== src/Descriptor/EnumDescriptorProto/Laws.antt =====
-- EnumDescriptorProto of gen/ts/google/protobuf/descriptor.ts: its fields, one by one.
use merkle_proof_service.Descriptor.EnumDescriptorProto.{
  EnumDescriptorProto, EnumDescriptorProtoPartial, base, encode, decode, from_json, to_json,
  from_partial, create, empty, embed, fns,
}
use merkle_proof_service.Descriptor.EnumDescriptorProtoEnumReservedRange
use merkle_proof_service.Descriptor.EnumOptions
use merkle_proof_service.Descriptor.EnumValueDescriptorProto
use merkle_proof_service.Descriptor.Enums.SymbolVisibility
use merkle_proof_service.Message.Statements.{
  pos, List, [], ◌∷◌, map, Wire, Runtime, map_option, or_present,
}
use merkle_proof_service.Message.Fields.{
  refl, arith, All, AllOption, IsLawful, switch, IsRuntime, string_type-IsScalar,
  member_type-IsScalar, Row, Message, free, scalar_row, strings_row, Fitting, message_row,
  messages_row, OfRows, rows-Message, IsMember, IsReadAs, Message-IsReadAs,
}

-- What is read of a message: a field that is `undefined` has its default.
unfoldable pub normal : EnumDescriptorProto → EnumDescriptorProto
normal m = record {
  name = or_present m.name "";
  value = map EnumValueDescriptorProto.Laws.normal m.value;
  options = map_option EnumOptions.Laws.normal m.options;
  reserved_range = map EnumDescriptorProtoEnumReservedRange.Laws.normal m.reserved_range;
  reserved_name = m.reserved_name;
  visibility = or_present m.visibility (pos 0);
}

-- The values that the fields can hold.
abbrev pub IsValid : Wire → Runtime → EnumDescriptorProto → Type 0
IsValid w rt m =
    (All
      (Fitting (EnumValueDescriptorProto.Laws.IsValid w rt) (EnumValueDescriptorProto.encode w rt))
      m.value)
    × (AllOption (Fitting (EnumOptions.Laws.IsValid w rt) (EnumOptions.encode w rt)) m.options)
    × (All
        (Fitting (EnumDescriptorProtoEnumReservedRange.Laws.IsValid w rt)
          (EnumDescriptorProtoEnumReservedRange.encode w rt))
        m.reserved_range)
    × (AllOption (IsMember SymbolVisibility.fns) m.visibility)

module _ (w : Wire) (L : IsLawful w) (rt : Runtime) (R : IsRuntime rt) where
  abbrev pub rows : List (Row w rt EnumDescriptorProto EnumDescriptorProtoPartial)
  rows =
      scalar_row w L rt (string_type-IsScalar w L rt R) 10 (omega arith) "name" (λ m. m.name)
        (λ m v. record m { name = v }) (λ p. p.name)
      ∷ messages_row w L (EnumValueDescriptorProto.Laws.EnumValueDescriptorProto-Message w L rt R)
          18 (omega arith) "value" (λ m. m.value) (λ m v. record m { value = v }) (λ m a b. refl)
          (λ p. p.value)
      ∷ message_row w L (EnumOptions.Laws.EnumOptions-Message w L rt R) 26 (omega arith) "options"
          (λ m. m.options) (λ m v. record m { options = v }) (λ m a b. refl) (λ p. p.options)
      ∷ messages_row w L
          (EnumDescriptorProtoEnumReservedRange.Laws.EnumDescriptorProtoEnumReservedRange-Message w
            L rt R)
          34 (omega arith) "reservedRange" (λ m. m.reserved_range)
          (λ m v. record m { reserved_range = v }) (λ m a b. refl) (λ p. p.reserved_range)
      ∷ strings_row w L rt 42 (omega arith) "reservedName" (λ m. m.reserved_name)
          (λ m v. record m { reserved_name = v }) (λ m a b. refl) (λ p. p.reserved_name)
      ∷ scalar_row w L rt
          (member_type-IsScalar w L rt R SymbolVisibility.unrecognized SymbolVisibility.fns
            SymbolVisibility.SymbolVisibility-IsEnum 0)
          48 (omega arith) "visibility" (λ m. m.visibility) (λ m v. record m { visibility = v })
          (λ p. p.visibility)
      ∷ []

  pub EnumDescriptorProto-OfRows : OfRows (fns w rt) embed normal rows base empty
  unfolding encode decode from_json to_json from_partial create embed normal switch
  EnumDescriptorProto-OfRows = refl

  abbrev pub EnumDescriptorProto-Message : Message rt EnumDescriptorProto EnumDescriptorProtoPartial
  EnumDescriptorProto-Message =
      rows-Message L (fns w rt) embed normal rows base empty EnumDescriptorProto-OfRows
        (IsValid w rt) (λ m h. (free m.name, (h.0, (h.1, (h.2, (tt, (h.3, tt)))))))

-- Over a lawful wire and runtime, every EnumDescriptorProto whose values, options and reserved
-- ranges are valid, of lengths below 2 ^ 32, and whose visibility is a number of its enum, is read
-- as `normal` of it, which has the default for each `undefined`: from its bytes, as a whole buffer
-- and inside a longer one, from its JSON and from its partial form, also by `create`; and `encode`
-- appends to what the writer holds.
pub EnumDescriptorProto-IsReadAs :
    (w : Wire)
    → IsLawful w
    → (rt : Runtime) → IsRuntime rt
    → (m : EnumDescriptorProto) → IsValid w rt m
    → IsReadAs (fns w rt) embed m (normal m)
EnumDescriptorProto-IsReadAs w L rt R m valid =
    Message-IsReadAs R (EnumDescriptorProto-Message w L rt R) m valid
