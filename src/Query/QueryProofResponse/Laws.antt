-- ===== src/Query/QueryProofResponse/Laws.antt =====
-- QueryProofResponse of gen/ts/galactica/merkle/query.ts: its fields, one by one.
use merkle_proof_service.Query.QueryProofResponse.{
  QueryProofResponse, QueryProofResponsePartial, base, encode, decode, from_json, to_json,
  from_partial, create, empty, embed, fns,
}
use merkle_proof_service.Query.Proof
use merkle_proof_service.Prelude.{◌≡◌, inl, inr, Option-cases, length, subst}
use merkle_proof_service.Wire.Fields.{CodedAs}
use merkle_proof_service.Message.Fns.{IsFaithful}
use merkle_proof_service.Message.Statements.{List, [], ◌∷◌, Wire, Runtime, map_option}
use merkle_proof_service.Message.Fields.{
  refl, arith, ◌^◌, ◌<◌, AllOption, IsLawful, switch, IsRuntime, any_runtime, Row, Message,
  message_row, OfRows, rows-Message, IsReadAs, Message-IsReadAs, Coded,
}

-- The numbers are uint32s, and each message in a field has a length that fits its prefix.
abbrev pub IsValid : Wire → QueryProofResponse → Type 0
IsValid w m =
    AllOption (λ v. Proof.Laws.IsValid w v × (length (Proof.encode w v []) < 2 ^ 32)) m.proof

-- A message, put together from its parts.
unfoldable pub parts : QueryProofResponse → QueryProofResponse
parts m = record { proof = map_option (λ v. v) m.proof }

parts_same : (m : QueryProofResponse) → parts m ≡ m
unfolding parts map_option
parts_same m = elim (Option-cases m.proof) [ inl e ↦ rw e refl | inr (v, e) ↦ rw e refl ]

module _ (w : Wire) (L : IsLawful w) (rt : Runtime) where
  abbrev pub rows : List (Row w rt QueryProofResponse QueryProofResponsePartial)
  rows =
      message_row w L (Proof.Laws.Proof-Message w L rt) 10 (omega arith) "proof" (λ m. m.proof)
        (λ m v. record m { proof = v }) (λ m a b. refl) (λ p. p.proof)
      ∷ []

  pub QueryProofResponse-OfRows : OfRows (fns w rt) embed parts rows base empty
  unfolding encode decode from_json to_json from_partial create embed switch parts
  QueryProofResponse-OfRows = refl

  abbrev pub QueryProofResponse-Message : Message rt QueryProofResponse QueryProofResponsePartial
  QueryProofResponse-Message =
      rows-Message L (fns w rt) embed parts rows base empty QueryProofResponse-OfRows (IsValid w)
        (λ m h. (h, tt))

-- The bytes of a message do not depend on the runtime.
pub QueryProofResponse-Coded :
    (w : Wire) → IsLawful w → (m : QueryProofResponse) → IsValid w m → Coded (encode w) (decode w) m
QueryProofResponse-Coded w L m valid =
    subst (CodedAs (encode w) (decode w) m) (parts_same m)
      ((QueryProofResponse-Message w L any_runtime).coded m valid)

-- Over a lawful wire and runtime, every QueryProofResponse whose nested proof, if any,
-- has a uint32 index and a length below 2 ^ 32
-- is read back from its bytes, as a whole buffer and inside a longer one, from its JSON and from its
-- partial form, also by `create`; and `encode` appends to what the writer holds.
pub QueryProofResponse-IsFaithful :
    (w : Wire)
    → IsLawful w
    → (rt : Runtime) → IsRuntime rt
    → (m : QueryProofResponse) → IsValid w m
    → IsFaithful (fns w rt) embed m
QueryProofResponse-IsFaithful w L rt R m valid =
    subst (IsReadAs (fns w rt) embed m) (parts_same m)
      (Message-IsReadAs R (QueryProofResponse-Message w L rt) m valid)
