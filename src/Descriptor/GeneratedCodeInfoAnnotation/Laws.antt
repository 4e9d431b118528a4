-- ===== src/Descriptor/GeneratedCodeInfoAnnotation/Laws.antt =====
-- GeneratedCodeInfo_Annotation of gen/ts/google/protobuf/descriptor.ts: its fields, one by one.
use merkle_proof_service.Descriptor.GeneratedCodeInfoAnnotation.{
  GeneratedCodeInfoAnnotation, GeneratedCodeInfoAnnotationPartial, base, encode, decode, from_json,
  to_json, from_partial, create, empty, embed, fns,
}
use merkle_proof_service.Descriptor.Enums.GeneratedCodeInfoAnnotationSemantic
use merkle_proof_service.Message.Statements.{pos, List, [], ◌∷◌, Wire, Runtime, or_present}
use merkle_proof_service.Message.Fields.{
  refl, arith, ◌^◌, IsWithin, AllOption, IsLawful, switch, IsRuntime, string_type-IsScalar,
  int32_type-IsScalar, member_type-IsScalar, Row, Message, free, scalar_row, OfRows, rows-Message,
  IsMember, FitsPacked, packed_row,
}

-- What is read of a message: a field that is `undefined` has its default.
unfoldable pub normal : GeneratedCodeInfoAnnotation → GeneratedCodeInfoAnnotation
normal m = record {
  path = m.path;
  source_file = or_present m.source_file "";
  begin = or_present m.begin (pos 0);
  end = or_present m.end (pos 0);
  semantic = or_present m.semantic (pos 0);
}

-- The values that the fields can hold.
abbrev pub IsValid : Wire → Runtime → GeneratedCodeInfoAnnotation → Type 0
IsValid w rt m =
    (FitsPacked w (IsWithin (2 ^ 31)) m.path)
    × (AllOption (IsWithin (2 ^ 31)) m.begin)
    × (AllOption (IsWithin (2 ^ 31)) m.end)
    × (AllOption (IsMember GeneratedCodeInfoAnnotationSemantic.fns) m.semantic)

module _ (w : Wire) (L : IsLawful w) (rt : Runtime) (R : IsRuntime rt) where
  abbrev pub rows : List (Row w rt GeneratedCodeInfoAnnotation GeneratedCodeInfoAnnotationPartial)
  rows =
      packed_row w L rt (int32_type-IsScalar w L rt R) 8 10 (omega arith) "path" (λ m. m.path)
        (λ m v. record m { path = v }) (λ m a b. refl) (λ p. p.path)
      ∷ scalar_row w L rt (string_type-IsScalar w L rt R) 18 (omega arith) "sourceFile"
          (λ m. m.source_file) (λ m v. record m { source_file = v }) (λ p. p.source_file)
      ∷ scalar_row w L rt (int32_type-IsScalar w L rt R) 24 (omega arith) "begin" (λ m. m.begin)
          (λ m v. record m { begin = v }) (λ p. p.begin)
      ∷ scalar_row w L rt (int32_type-IsScalar w L rt R) 32 (omega arith) "end" (λ m. m.end)
          (λ m v. record m { end = v }) (λ p. p.end)
      ∷ scalar_row w L rt
          (member_type-IsScalar w L rt R GeneratedCodeInfoAnnotationSemantic.unrecognized
            GeneratedCodeInfoAnnotationSemantic.fns
            GeneratedCodeInfoAnnotationSemantic.GeneratedCodeInfoAnnotationSemantic-IsEnum 0)
          40 (omega arith) "semantic" (λ m. m.semantic) (λ m v. record m { semantic = v })
          (λ p. p.semantic)
      ∷ []

  pub GeneratedCodeInfoAnnotation-OfRows : OfRows (fns w rt) embed normal rows base empty
  unfolding encode decode from_json to_json from_partial create embed normal switch
  GeneratedCodeInfoAnnotation-OfRows = refl

  abbrev pub GeneratedCodeInfoAnnotation-Message :
      Message rt GeneratedCodeInfoAnnotation GeneratedCodeInfoAnnotationPartial
  GeneratedCodeInfoAnnotation-Message =
      rows-Message L (fns w rt) embed normal rows base empty GeneratedCodeInfoAnnotation-OfRows
        (IsValid w rt) (λ m h. (h.0, (free m.source_file, (h.1, (h.2, (h.3, tt))))))
