-- ===== src/Query/BatchProof/Laws.antt =====
-- BatchProof of gen/ts/galactica/merkle/query.ts: its fields, one by one.
use merkle_proof_service.Query.BatchProof.{
  BatchProof, BatchProofPartial, base, encode, decode, from_json, to_json, from_partial, create,
  empty, embed, fns,
}
use merkle_proof_service.Message.Fns.{IsFaithful}
use merkle_proof_service.Message.Statements.{List, [], ◌∷◌, Wire, Runtime}
use merkle_proof_service.Message.Fields.{
  refl, arith, ◌^◌, ◌<◌, IsLawful, switch, IsRuntime, Row, Message, uint32_row, strings_row, OfRows,
  rows-Message, Message-IsReadAs,
}

-- The numbers are uint32s.
abbrev pub IsValid : Wire → BatchProof → Type 0
IsValid w m = (m.index < 2 ^ 32)

module _ (w : Wire) (L : IsLawful w) (rt : Runtime) where
  abbrev pub rows : List (Row w rt BatchProof BatchProofPartial)
  rows =
      uint32_row w L rt 8 (omega arith) "index" (λ m. m.index) (λ m v. record m { index = v })
        (λ m a b. refl) (λ p. p.index)
      ∷ strings_row w L rt 18 (omega arith) "path" (λ m. m.path) (λ m v. record m { path = v })
          (λ m a b. refl) (λ p. p.path)
      ∷ []

  pub BatchProof-OfRows : OfRows (fns w rt) embed (λ m. m) rows base empty
  unfolding encode decode from_json to_json from_partial create embed switch
  BatchProof-OfRows = refl

  abbrev pub BatchProof-Message : Message rt BatchProof BatchProofPartial
  BatchProof-Message =
      rows-Message L (fns w rt) embed (λ m. m) rows base empty BatchProof-OfRows (IsValid w)
        (λ m h. (h, (tt, tt)))

-- Over a lawful wire and runtime, every BatchProof whose index is a uint32
-- is read back from its bytes, as a whole buffer and inside a longer one, from its JSON and from its
-- partial form, also by `create`; and `encode` appends to what the writer holds.
pub BatchProof-IsFaithful :
    (w : Wire)
    → IsLawful w
    → (rt : Runtime) → IsRuntime rt
    → (m : BatchProof) → IsValid w m
    → IsFaithful (fns w rt) embed m
BatchProof-IsFaithful w L rt R m valid = Message-IsReadAs R (BatchProof-Message w L rt) m valid
