-- ===== src/Query/GetEmptyLeafProofResponse/Laws.antt =====
-- GetEmptyLeafProofResponse of gen/ts/galactica/merkle/query.ts: its fields, one by one.
use merkle_proof_service.Query.GetEmptyLeafProofResponse.{
  GetEmptyLeafProofResponse, GetEmptyLeafProofResponsePartial, base, encode, decode, from_json,
  to_json, from_partial, create, empty, embed, fns,
}
use merkle_proof_service.Query.Proof
use merkle_proof_service.Prelude.{◌≡◌, inl, inr, Option-cases, length, subst}
use merkle_proof_service.Wire.Fields.{CodedAs}
use merkle_proof_service.Message.Fns.{IsFaithful}
use merkle_proof_service.Message.Statements.{List, [], ◌∷◌, Wire, Runtime, map_option}
use merkle_proof_service.Message.Fields.{
  refl, arith, ◌^◌, ◌<◌, AllOption, IsLawful, switch, IsRuntime, any_runtime, Row, Message,
  message_row, OfRows, rows-Message, IsReadAs, Message-IsReadAs, Coded,
}

-- The numbers are uint32s, and each message in a field has a length that fits its prefix.
abbrev pub IsValid : Wire → GetEmptyLeafProofResponse → Type 0
IsValid w m =
    AllOption (λ v. Proof.Laws.IsValid w v × (length (Proof.encode w v []) < 2 ^ 32)) m.proof

-- A message, put together from its parts.
unfoldable pub parts : GetEmptyLeafProofResponse → GetEmptyLeafProofResponse
parts m = record { proof = map_option (λ v. v) m.proof }

parts_same : (m : GetEmptyLeafProofResponse) → parts m ≡ m
unfolding parts map_option
parts_same m = elim (Option-cases m.proof) [ inl e ↦ rw e refl | inr (v, e) ↦ rw e refl ]

module _ (w : Wire) (L : IsLawful w) (rt : Runtime) where
  abbrev pub rows : List (Row w rt GetEmptyLeafProofResponse GetEmptyLeafProofResponsePartial)
  rows =
      message_row w L (Proof.Laws.Proof-Message w L rt) 10 (omega arith) "proof" (λ m. m.proof)
        (λ m v. record m { proof = v }) (λ m a b. refl) (λ p. p.proof)
      ∷ []

  pub GetEmptyLeafProofResponse-OfRows : OfRows (fns w rt) embed parts rows base empty
  unfolding encode decode from_json to_json from_partial create embed switch parts
  GetEmptyLeafProofResponse-OfRows = refl

  abbrev pub GetEmptyLeafProofResponse-Message :
      Message rt GetEmptyLeafProofResponse GetEmptyLeafProofResponsePartial
  GetEmptyLeafProofResponse-Message =
      rows-Message L (fns w rt) embed parts rows base empty GetEmptyLeafProofResponse-OfRows
        (IsValid w) (λ m h. (h, tt))

-- The bytes of a message do not depend on the runtime.
pub GetEmptyLeafProofResponse-Coded :
    (w : Wire)
    → IsLawful w
    → (m : GetEmptyLeafProofResponse) → IsValid w m
    → Coded (encode w) (decode w) m
GetEmptyLeafProofResponse-Coded w L m valid =
    subst (CodedAs (encode w) (decode w) m) (parts_same m)
      ((GetEmptyLeafProofResponse-Message w L any_runtime).coded m valid)

-- Over a lawful wire and runtime, every GetEmptyLeafProofResponse whose nested proof,
-- if any, has a uint32 index and a length below 2 ^ 32
-- is read back from its bytes, as a whole buffer and inside a longer one, from its JSON and from its
-- partial form, also by `create`; and `encode` appends to what the writer holds.
pub GetEmptyLeafProofResponse-IsFaithful :
    (w : Wire)
    → IsLawful w
    → (rt : Runtime) → IsRuntime rt
    → (m : GetEmptyLeafProofResponse) → IsValid w m
    → IsFaithful (fns w rt) embed m
GetEmptyLeafProofResponse-IsFaithful w L rt R m valid =
    subst (IsReadAs (fns w rt) embed m) (parts_same m)
      (Message-IsReadAs R (GetEmptyLeafProofResponse-Message w L rt) m valid)
