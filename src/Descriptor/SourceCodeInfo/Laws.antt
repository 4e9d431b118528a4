-- ===== src/Descriptor/SourceCodeInfo/Laws.antt =====
-- SourceCodeInfo of gen/ts/google/protobuf/descriptor.ts: its fields, one by one.
use merkle_proof_service.Descriptor.SourceCodeInfo.{
  SourceCodeInfo, SourceCodeInfoPartial, base, encode, decode, from_json, to_json, from_partial,
  create, empty, embed, fns,
}
use merkle_proof_service.Descriptor.SourceCodeInfoLocation
use merkle_proof_service.Message.Statements.{List, [], ◌∷◌, map, Wire, Runtime}
use merkle_proof_service.Message.Fields.{
  refl, arith, All, IsLawful, switch, IsRuntime, Row, Message, Fitting, messages_row, OfRows,
  rows-Message, IsReadAs, Message-IsReadAs,
}

-- What is read of a message: a field that is `undefined` has its default.
unfoldable pub normal : SourceCodeInfo → SourceCodeInfo
normal m = record { location = map SourceCodeInfoLocation.Laws.normal m.location }

-- The values that the fields can hold.
abbrev pub IsValid : Wire → Runtime → SourceCodeInfo → Type 0
IsValid w rt m =
    All (Fitting (SourceCodeInfoLocation.Laws.IsValid w rt) (SourceCodeInfoLocation.encode w rt))
      m.location

module _ (w : Wire) (L : IsLawful w) (rt : Runtime) (R : IsRuntime rt) where
  abbrev pub rows : List (Row w rt SourceCodeInfo SourceCodeInfoPartial)
  rows =
      messages_row w L (SourceCodeInfoLocation.Laws.SourceCodeInfoLocation-Message w L rt R) 10
        (omega arith) "location" (λ m. m.location) (λ m v. record m { location = v })
        (λ m a b. refl) (λ p. p.location)
      ∷ []

  pub SourceCodeInfo-OfRows : OfRows (fns w rt) embed normal rows base empty
  unfolding encode decode from_json to_json from_partial create embed normal switch
  SourceCodeInfo-OfRows = refl

  abbrev pub SourceCodeInfo-Message : Message rt SourceCodeInfo SourceCodeInfoPartial
  SourceCodeInfo-Message =
      rows-Message L (fns w rt) embed normal rows base empty SourceCodeInfo-OfRows (IsValid w rt)
        (λ m h. (h, tt))

-- Over a lawful wire and runtime, every SourceCodeInfo whose locations have int32s in path and
-- span, and lengths below 2 ^ 32, is read as `normal` of it, which has the default for each
-- `undefined`: from its bytes, as a whole buffer and inside a longer one, from its JSON and from
-- its partial form, also by `create`; and `encode` appends to what the writer holds.
pub SourceCodeInfo-IsReadAs :
    (w : Wire)
    → IsLawful w
    → (rt : Runtime) → IsRuntime rt
    → (m : SourceCodeInfo) → IsValid w rt m
    → IsReadAs (fns w rt) embed m (normal m)
SourceCodeInfo-IsReadAs w L rt R m valid =
    Message-IsReadAs R (SourceCodeInfo-Message w L rt R) m valid
