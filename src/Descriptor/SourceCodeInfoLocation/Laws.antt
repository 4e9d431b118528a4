-- ===== src/Descriptor/SourceCodeInfoLocation/Laws.antt =====
-- SourceCodeInfo_Location of gen/ts/google/protobuf/descriptor.ts: its fields, one by one.
use merkle_proof_service.Descriptor.SourceCodeInfoLocation.{
  SourceCodeInfoLocation, SourceCodeInfoLocationPartial, base, encode, decode, from_json, to_json,
  from_partial, create, empty, embed, fns,
}
use merkle_proof_service.Message.Statements.{List, [], ◌∷◌, Wire, Runtime, or_present}
use merkle_proof_service.Message.Fields.{
  refl, arith, ◌^◌, IsWithin, IsLawful, switch, IsRuntime, string_type-IsScalar,
  int32_type-IsScalar, Row, Message, free, scalar_row, strings_row, OfRows, rows-Message,
  FitsPacked, packed_row,
}

-- What is read of a message: a field that is `undefined` has its default.
unfoldable pub normal : SourceCodeInfoLocation → SourceCodeInfoLocation
normal m = record {
  path = m.path;
  span = m.span;
  leading_comments = or_present m.leading_comments "";
  trailing_comments = or_present m.trailing_comments "";
  leading_detached_comments = m.leading_detached_comments;
}

-- The values that the fields can hold.
abbrev pub IsValid : Wire → Runtime → SourceCodeInfoLocation → Type 0
IsValid w rt m =
    (FitsPacked w (IsWithin (2 ^ 31)) m.path) × (FitsPacked w (IsWithin (2 ^ 31)) m.span)

module _ (w : Wire) (L : IsLawful w) (rt : Runtime) (R : IsRuntime rt) where
  abbrev pub rows : List (Row w rt SourceCodeInfoLocation SourceCodeInfoLocationPartial)
  rows =
      packed_row w L rt (int32_type-IsScalar w L rt R) 8 10 (omega arith) "path" (λ m. m.path)
        (λ m v. record m { path = v }) (λ m a b. refl) (λ p. p.path)
      ∷ packed_row w L rt (int32_type-IsScalar w L rt R) 16 18 (omega arith) "span" (λ m. m.span)
          (λ m v. record m { span = v }) (λ m a b. refl) (λ p. p.span)
      ∷ scalar_row w L rt (string_type-IsScalar w L rt R) 26 (omega arith) "leadingComments"
          (λ m. m.leading_comments) (λ m v. record m { leading_comments = v })
          (λ p. p.leading_comments)
      ∷ scalar_row w L rt (string_type-IsScalar w L rt R) 34 (omega arith) "trailingComments"
          (λ m. m.trailing_comments) (λ m v. record m { trailing_comments = v })
          (λ p. p.trailing_comments)
      ∷ strings_row w L rt 50 (omega arith) "leadingDetachedComments"
          (λ m. m.leading_detached_comments) (λ m v. record m { leading_detached_comments = v })
          (λ m a b. refl) (λ p. p.leading_detached_comments)
      ∷ []

  pub SourceCodeInfoLocation-OfRows : OfRows (fns w rt) embed normal rows base empty
  unfolding encode decode from_json to_json from_partial create embed normal switch
  SourceCodeInfoLocation-OfRows = refl

  abbrev pub SourceCodeInfoLocation-Message :
      Message rt SourceCodeInfoLocation SourceCodeInfoLocationPartial
  SourceCodeInfoLocation-Message =
      rows-Message L (fns w rt) embed normal rows base empty SourceCodeInfoLocation-OfRows
        (IsValid w rt)
        (λ m h. (h.0, (h.1, (free m.leading_comments, (free m.trailing_comments, (tt, tt))))))
