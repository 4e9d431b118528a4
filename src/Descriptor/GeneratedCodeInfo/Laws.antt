-- ===== src/Descriptor/GeneratedCodeInfo/Laws.antt =====
-- GeneratedCodeInfo of gen/ts/google/protobuf/descriptor.ts: its fields, one by one.
use merkle_proof_service.Descriptor.GeneratedCodeInfo.{
  GeneratedCodeInfo, GeneratedCodeInfoPartial, base, encode, decode, from_json, to_json,
  from_partial, create, empty, embed, fns,
}
use merkle_proof_service.Descriptor.GeneratedCodeInfoAnnotation
use merkle_proof_service.Message.Statements.{List, [], ◌∷◌, map, Wire, Runtime}
use merkle_proof_service.Message.Fields.{
  refl, arith, All, IsLawful, switch, IsRuntime, Row, Message, Fitting, messages_row, OfRows,
  rows-Message, IsReadAs, Message-IsReadAs,
}

-- What is read of a message: a field that is `undefined` has its default.
unfoldable pub normal : GeneratedCodeInfo → GeneratedCodeInfo
normal m = record { annotation = map GeneratedCodeInfoAnnotation.Laws.normal m.annotation }

-- The values that the fields can hold.
abbrev pub IsValid : Wire → Runtime → GeneratedCodeInfo → Type 0
IsValid w rt m =
    All
      (Fitting (GeneratedCodeInfoAnnotation.Laws.IsValid w rt)
        (GeneratedCodeInfoAnnotation.encode w rt))
      m.annotation

module _ (w : Wire) (L : IsLawful w) (rt : Runtime) (R : IsRuntime rt) where
  abbrev pub rows : List (Row w rt GeneratedCodeInfo GeneratedCodeInfoPartial)
  rows =
      messages_row w L
        (GeneratedCodeInfoAnnotation.Laws.GeneratedCodeInfoAnnotation-Message w L rt R) 10
        (omega arith) "annotation" (λ m. m.annotation) (λ m v. record m { annotation = v })
        (λ m a b. refl) (λ p. p.annotation)
      ∷ []

  pub GeneratedCodeInfo-OfRows : OfRows (fns w rt) embed normal rows base empty
  unfolding encode decode from_json to_json from_partial create embed normal switch
  GeneratedCodeInfo-OfRows = refl

  abbrev pub GeneratedCodeInfo-Message : Message rt GeneratedCodeInfo GeneratedCodeInfoPartial
  GeneratedCodeInfo-Message =
      rows-Message L (fns w rt) embed normal rows base empty GeneratedCodeInfo-OfRows (IsValid w rt)
        (λ m h. (h, tt))

-- Over a lawful wire and runtime, every GeneratedCodeInfo whose annotations are valid, of lengths
-- below 2 ^ 32, is read as `normal` of it, which has the default for each `undefined`: from its
-- bytes, as a whole buffer and inside a longer one, from its JSON and from its partial form, also
-- by `create`; and `encode` appends to what the writer holds.
pub GeneratedCodeInfo-IsReadAs :
    (w : Wire)
    → IsLawful w
    → (rt : Runtime) → IsRuntime rt
    → (m : GeneratedCodeInfo) → IsValid w rt m
    → IsReadAs (fns w rt) embed m (normal m)
GeneratedCodeInfo-IsReadAs w L rt R m valid =
    Message-IsReadAs R (GeneratedCodeInfo-Message w L rt R) m valid
