-- ===== src/Query/QueryBatchProofsResponse/Laws.antt =====
-- QueryBatchProofsResponse of gen/ts/galactica/merkle/query.ts: its fields, one by one.
use merkle_proof_service.Query.QueryBatchProofsResponse.{
  QueryBatchProofsResponse, QueryBatchProofsResponsePartial, base, encode, decode, from_json,
  to_json, from_partial, create, empty, embed, fns,
}
use merkle_proof_service.Query.BatchProof
use merkle_proof_service.Prelude.{◌≡◌, map_id, length, subst}
use merkle_proof_service.Wire.Fields.{CodedAs}
use merkle_proof_service.Message.Fns.{IsFaithful}
use merkle_proof_service.Message.Statements.{List, [], ◌∷◌, map, Wire, Runtime, map_option}
use merkle_proof_service.Message.Fields.{
  refl, arith, ◌^◌, ◌<◌, All, IsLawful, switch, IsRuntime, any_runtime, Row, Message, string_row,
  messages_row, OfRows, rows-Message, IsReadAs, Message-IsReadAs, Coded,
}

-- The numbers are uint32s, and each message in a field has a length that fits its prefix.
abbrev pub IsValid : Wire → QueryBatchProofsResponse → Type 0
IsValid w m =
    All (λ v. BatchProof.Laws.IsValid w v × (length (BatchProof.encode w v []) < 2 ^ 32)) m.proofs

-- A message, put together from its parts.
unfoldable pub parts : QueryBatchProofsResponse → QueryBatchProofsResponse
parts m = record { initial_root = m.initial_root; proofs = map (λ v. v) m.proofs }

parts_same : (m : QueryBatchProofsResponse) → parts m ≡ m
unfolding parts map_option
parts_same m = rw (map_id m.proofs) refl

module _ (w : Wire) (L : IsLawful w) (rt : Runtime) where
  abbrev pub rows : List (Row w rt QueryBatchProofsResponse QueryBatchProofsResponsePartial)
  rows =
      string_row w L rt 10 (omega arith) "initialRoot" (λ m. m.initial_root)
        (λ m v. record m { initial_root = v }) (λ m a b. refl) (λ p. p.initial_root)
      ∷ messages_row w L (BatchProof.Laws.BatchProof-Message w L rt) 18 (omega arith) "proofs"
          (λ m. m.proofs) (λ m v. record m { proofs = v }) (λ m a b. refl) (λ p. p.proofs)
      ∷ []

  pub QueryBatchProofsResponse-OfRows : OfRows (fns w rt) embed parts rows base empty
  unfolding encode decode from_json to_json from_partial create embed switch parts
  QueryBatchProofsResponse-OfRows = refl

  abbrev pub QueryBatchProofsResponse-Message :
      Message rt QueryBatchProofsResponse QueryBatchProofsResponsePartial
  QueryBatchProofsResponse-Message =
      rows-Message L (fns w rt) embed parts rows base empty QueryBatchProofsResponse-OfRows
        (IsValid w) (λ m h. (tt, (h, tt)))

-- The bytes of a message do not depend on the runtime.
pub QueryBatchProofsResponse-Coded :
    (w : Wire)
    → IsLawful w
    → (m : QueryBatchProofsResponse) → IsValid w m
    → Coded (encode w) (decode w) m
QueryBatchProofsResponse-Coded w L m valid =
    subst (CodedAs (encode w) (decode w) m) (parts_same m)
      ((QueryBatchProofsResponse-Message w L any_runtime).coded m valid)

-- Over a lawful wire and runtime, every QueryBatchProofsResponse whose proofs
-- each have a uint32 index and a length below 2 ^ 32
-- is read back from its bytes, as a whole buffer and inside a longer one, from its JSON and from its
-- partial form, also by `create`; and `encode` appends to what the writer holds.
pub QueryBatchProofsResponse-IsFaithful :
    (w : Wire)
    → IsLawful w
    → (rt : Runtime) → IsRuntime rt
    → (m : QueryBatchProofsResponse) → IsValid w m
    → IsFaithful (fns w rt) embed m
QueryBatchProofsResponse-IsFaithful w L rt R m valid =
    subst (IsReadAs (fns w rt) embed m) (parts_same m)
      (Message-IsReadAs R (QueryBatchProofsResponse-Message w L rt) m valid)
