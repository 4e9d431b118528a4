-- ===== src/Descriptor/FieldOptionsEditionDefault/Laws.antt =====
-- FieldOptions_EditionDefault of gen/ts/google/protobuf/descriptor.ts: its fields, one by one.
use merkle_proof_service.Descriptor.FieldOptionsEditionDefault.{
  FieldOptionsEditionDefault, FieldOptionsEditionDefaultPartial, base, encode, decode, from_json,
  to_json, from_partial, create, empty, embed, fns,
}
use merkle_proof_service.Descriptor.Enums.Edition
use merkle_proof_service.Message.Statements.{pos, List, [], ◌∷◌, Wire, Runtime, or_present}
use merkle_proof_service.Message.Fields.{
  refl, arith, AllOption, IsLawful, switch, IsRuntime, string_type-IsScalar, member_type-IsScalar,
  Row, Message, free, scalar_row, OfRows, rows-Message, IsMember,
}

-- What is read of a message: a field that is `undefined` has its default.
unfoldable pub normal : FieldOptionsEditionDefault → FieldOptionsEditionDefault
normal m = record { edition = or_present m.edition (pos 0); value = or_present m.value "" }

-- The values that the fields can hold.
abbrev pub IsValid : Wire → Runtime → FieldOptionsEditionDefault → Type 0
IsValid w rt m = AllOption (IsMember Edition.fns) m.edition

module _ (w : Wire) (L : IsLawful w) (rt : Runtime) (R : IsRuntime rt) where
  abbrev pub rows : List (Row w rt FieldOptionsEditionDefault FieldOptionsEditionDefaultPartial)
  rows =
      scalar_row w L rt
        (member_type-IsScalar w L rt R Edition.unrecognized Edition.fns Edition.Edition-IsEnum 0) 24
        (omega arith) "edition" (λ m. m.edition) (λ m v. record m { edition = v }) (λ p. p.edition)
      ∷ scalar_row w L rt (string_type-IsScalar w L rt R) 18 (omega arith) "value" (λ m. m.value)
          (λ m v. record m { value = v }) (λ p. p.value)
      ∷ []

  pub FieldOptionsEditionDefault-OfRows : OfRows (fns w rt) embed normal rows base empty
  unfolding encode decode from_json to_json from_partial create embed normal switch
  FieldOptionsEditionDefault-OfRows = refl

  abbrev pub FieldOptionsEditionDefault-Message :
      Message rt FieldOptionsEditionDefault FieldOptionsEditionDefaultPartial
  FieldOptionsEditionDefault-Message =
      rows-Message L (fns w rt) embed normal rows base empty FieldOptionsEditionDefault-OfRows
        (IsValid w rt) (λ m h. (h, (free m.value, tt)))
