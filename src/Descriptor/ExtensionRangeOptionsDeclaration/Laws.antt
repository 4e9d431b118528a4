-- ===== src/Descriptor/ExtensionRangeOptionsDeclaration/Laws.antt =====
-- ExtensionRangeOptions_Declaration of gen/ts/google/protobuf/descriptor.ts: its fields, one by one.
use merkle_proof_service.Descriptor.ExtensionRangeOptionsDeclaration.{
  ExtensionRangeOptionsDeclaration, ExtensionRangeOptionsDeclarationPartial, base, encode, decode,
  from_json, to_json, from_partial, create, empty, embed, fns,
}
use merkle_proof_service.Message.Statements.{pos, false, List, [], ◌∷◌, Wire, Runtime, or_present}
use merkle_proof_service.Message.Fields.{
  refl, arith, ◌^◌, IsWithin, AllOption, IsLawful, switch, IsRuntime, string_type-IsScalar,
  bool_type-IsScalar, int32_type-IsScalar, Row, Message, free, scalar_row, OfRows, rows-Message,
}

-- What is read of a message: a field that is `undefined` has its default.
unfoldable pub normal : ExtensionRangeOptionsDeclaration → ExtensionRangeOptionsDeclaration
normal m = record {
  number = or_present m.number (pos 0);
  full_name = or_present m.full_name "";
  type = or_present m.type "";
  reserved = or_present m.reserved false;
  repeated = or_present m.repeated false;
}

-- The values that the fields can hold.
abbrev pub IsValid : Wire → Runtime → ExtensionRangeOptionsDeclaration → Type 0
IsValid w rt m = AllOption (IsWithin (2 ^ 31)) m.number

module _ (w : Wire) (L : IsLawful w) (rt : Runtime) (R : IsRuntime rt) where
  abbrev pub rows :
      List (Row w rt ExtensionRangeOptionsDeclaration ExtensionRangeOptionsDeclarationPartial)
  rows =
      scalar_row w L rt (int32_type-IsScalar w L rt R) 8 (omega arith) "number" (λ m. m.number)
        (λ m v. record m { number = v }) (λ p. p.number)
      ∷ scalar_row w L rt (string_type-IsScalar w L rt R) 18 (omega arith) "fullName"
          (λ m. m.full_name) (λ m v. record m { full_name = v }) (λ p. p.full_name)
      ∷ scalar_row w L rt (string_type-IsScalar w L rt R) 26 (omega arith) "type" (λ m. m.type)
          (λ m v. record m { type = v }) (λ p. p.type)
      ∷ scalar_row w L rt (bool_type-IsScalar w L rt R false) 40 (omega arith) "reserved"
          (λ m. m.reserved) (λ m v. record m { reserved = v }) (λ p. p.reserved)
      ∷ scalar_row w L rt (bool_type-IsScalar w L rt R false) 48 (omega arith) "repeated"
          (λ m. m.repeated) (λ m v. record m { repeated = v }) (λ p. p.repeated)
      ∷ []

  pub ExtensionRangeOptionsDeclaration-OfRows : OfRows (fns w rt) embed normal rows base empty
  unfolding encode decode from_json to_json from_partial create embed normal switch
  ExtensionRangeOptionsDeclaration-OfRows = refl

  abbrev pub ExtensionRangeOptionsDeclaration-Message :
      Message rt ExtensionRangeOptionsDeclaration ExtensionRangeOptionsDeclarationPartial
  ExtensionRangeOptionsDeclaration-Message =
      rows-Message L (fns w rt) embed normal rows base empty ExtensionRangeOptionsDeclaration-OfRows
        (IsValid w rt)
        (λ m h. (h, (free m.full_name, (free m.type, (free m.reserved, (free m.repeated, tt))))))
