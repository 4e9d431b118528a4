-- ===== src/Query/QueryBatchProofsRequest/Laws.antt =====
-- QueryBatchProofsRequest of gen/ts/galactica/merkle/query.ts: its fields, one by one.
use merkle_proof_service.Query.QueryBatchProofsRequest.{
  QueryBatchProofsRequest, QueryBatchProofsRequestPartial, base, encode, decode, from_json, to_json,
  from_partial, create, empty, embed, fns,
}
use merkle_proof_service.Query.BatchOperation
use merkle_proof_service.Prelude.{◌≡◌, map_id, All-map, length, subst}
use merkle_proof_service.Wire.Fields.{CodedAs}
use merkle_proof_service.Message.Fns.{IsFaithful}
use merkle_proof_service.Message.Statements.{List, [], ◌∷◌, map, Wire, Runtime, map_option}
use merkle_proof_service.Message.Fields.{
  refl, arith, ◌^◌, ◌<◌, All, IsLawful, switch, IsRuntime, any_runtime, Row, Message, string_row,
  messages_row, OfRows, rows-Message, IsReadAs, Message-IsReadAs, Coded,
}

-- The numbers are uint32s, and each message in a field has a length that fits its prefix.
abbrev pub IsValid : Wire → QueryBatchProofsRequest → Type 0
IsValid w m = All (λ v. (length (BatchOperation.encode w v []) < 2 ^ 32)) m.operations

-- A message, put together from its parts.
unfoldable pub parts : QueryBatchProofsRequest → QueryBatchProofsRequest
parts m = record { registry = m.registry; operations = map (λ v. v) m.operations }

parts_same : (m : QueryBatchProofsRequest) → parts m ≡ m
unfolding parts map_option
parts_same m = rw (map_id m.operations) refl

module _ (w : Wire) (L : IsLawful w) (rt : Runtime) where
  abbrev pub rows : List (Row w rt QueryBatchProofsRequest QueryBatchProofsRequestPartial)
  rows =
      string_row w L rt 10 (omega arith) "registry" (λ m. m.registry)
        (λ m v. record m { registry = v }) (λ m a b. refl) (λ p. p.registry)
      ∷ messages_row w L (BatchOperation.Laws.BatchOperation-Message w L rt) 18 (omega arith)
          "operations" (λ m. m.operations) (λ m v. record m { operations = v }) (λ m a b. refl)
          (λ p. p.operations)
      ∷ []

  pub QueryBatchProofsRequest-OfRows : OfRows (fns w rt) embed parts rows base empty
  unfolding encode decode from_json to_json from_partial create embed switch parts
  QueryBatchProofsRequest-OfRows = refl

  abbrev pub QueryBatchProofsRequest-Message :
      Message rt QueryBatchProofsRequest QueryBatchProofsRequestPartial
  QueryBatchProofsRequest-Message =
      rows-Message L (fns w rt) embed parts rows base empty QueryBatchProofsRequest-OfRows
        (IsValid w) (λ m h. (tt, (All-map (λ v h. (tt, h)) m.operations h, tt)))

-- The bytes of a message do not depend on the runtime.
pub QueryBatchProofsRequest-Coded :
    (w : Wire)
    → IsLawful w
    → (m : QueryBatchProofsRequest) → IsValid w m
    → Coded (encode w) (decode w) m
QueryBatchProofsRequest-Coded w L m valid =
    subst (CodedAs (encode w) (decode w) m) (parts_same m)
      ((QueryBatchProofsRequest-Message w L any_runtime).coded m valid)

-- Over a lawful wire and runtime, every QueryBatchProofsRequest whose
-- operations each have a length below 2 ^ 32
-- is read back from its bytes, as a whole buffer and inside a longer one, from its JSON and from its
-- partial form, also by `create`; and `encode` appends to what the writer holds.
pub QueryBatchProofsRequest-IsFaithful :
    (w : Wire)
    → IsLawful w
    → (rt : Runtime) → IsRuntime rt
    → (m : QueryBatchProofsRequest) → IsValid w m
    → IsFaithful (fns w rt) embed m
QueryBatchProofsRequest-IsFaithful w L rt R m valid =
    subst (IsReadAs (fns w rt) embed m) (parts_same m)
      (Message-IsReadAs R (QueryBatchProofsRequest-Message w L rt) m valid)
