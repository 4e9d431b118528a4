-- ===== src/Query/GetEmptyLeafProofRequest/Laws.antt =====
-- GetEmptyLeafProofRequest of gen/ts/galactica/merkle/query.ts: its fields, one by one.
use merkle_proof_service.Query.GetEmptyLeafProofRequest.{
  GetEmptyLeafProofRequest, GetEmptyLeafProofRequestPartial, base, encode, decode, from_json,
  to_json, from_partial, create, empty, embed, fns,
}
use merkle_proof_service.Message.Fns.{IsFaithful}
use merkle_proof_service.Message.Statements.{List, [], ◌∷◌, Wire, Runtime}
use merkle_proof_service.Message.Fields.{
  refl, arith, IsLawful, switch, IsRuntime, any_runtime, Row, Message, string_row, OfRows,
  rows-Message, Message-IsReadAs, Coded,
}

-- A message may be any of its type.
abbrev pub IsValid : Wire → GetEmptyLeafProofRequest → Type 0
IsValid w m = Unit

module _ (w : Wire) (L : IsLawful w) (rt : Runtime) where
  abbrev pub rows : List (Row w rt GetEmptyLeafProofRequest GetEmptyLeafProofRequestPartial)
  rows =
      string_row w L rt 10 (omega arith) "registry" (λ m. m.registry)
        (λ m v. record m { registry = v }) (λ m a b. refl) (λ p. p.registry)
      ∷ []

  pub GetEmptyLeafProofRequest-OfRows : OfRows (fns w rt) embed (λ m. m) rows base empty
  unfolding encode decode from_json to_json from_partial create embed switch
  GetEmptyLeafProofRequest-OfRows = refl

  abbrev pub GetEmptyLeafProofRequest-Message :
      Message rt GetEmptyLeafProofRequest GetEmptyLeafProofRequestPartial
  GetEmptyLeafProofRequest-Message =
      rows-Message L (fns w rt) embed (λ m. m) rows base empty GetEmptyLeafProofRequest-OfRows
        (IsValid w) (λ m h. (tt, tt))

-- The bytes of a message do not depend on the runtime.
pub GetEmptyLeafProofRequest-Coded :
    (w : Wire)
    → IsLawful w
    → (m : GetEmptyLeafProofRequest) → IsValid w m
    → Coded (encode w) (decode w) m
GetEmptyLeafProofRequest-Coded w L m valid =
    (GetEmptyLeafProofRequest-Message w L any_runtime).coded m valid

-- Over a lawful wire and runtime, every GetEmptyLeafProofRequest
-- is read back from its bytes, as a whole buffer and inside a longer one, from its JSON and from its
-- partial form, also by `create`; and `encode` appends to what the writer holds.
pub GetEmptyLeafProofRequest-IsFaithful :
    (w : Wire)
    → IsLawful w
    → (rt : Runtime) → IsRuntime rt
    → (m : GetEmptyLeafProofRequest) → IsFaithful (fns w rt) embed m
GetEmptyLeafProofRequest-IsFaithful w L rt R m =
    Message-IsReadAs R (GetEmptyLeafProofRequest-Message w L rt) m tt
