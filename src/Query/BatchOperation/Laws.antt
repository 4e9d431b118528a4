-- ===== src/Query/BatchOperation/Laws.antt =====
-- BatchOperation of gen/ts/galactica/merkle/query.ts: its fields, one by one.
use merkle_proof_service.Query.BatchOperation.{
  BatchOperation, BatchOperationPartial, base, encode, decode, from_json, to_json, from_partial,
  create, empty, embed, fns,
}
use merkle_proof_service.Message.Fns.{IsFaithful}
use merkle_proof_service.Message.Statements.{List, [], ◌∷◌, Wire, Runtime}
use merkle_proof_service.Message.Fields.{
  refl, arith, IsLawful, switch, IsRuntime, Row, Message, string_row, bool_row, OfRows,
  rows-Message, Message-IsReadAs,
}

-- A message may be any of its type.
abbrev pub IsValid : Wire → BatchOperation → Type 0
IsValid w m = Unit

module _ (w : Wire) (L : IsLawful w) (rt : Runtime) where
  abbrev pub rows : List (Row w rt BatchOperation BatchOperationPartial)
  rows =
      string_row w L rt 10 (omega arith) "leafHash" (λ m. m.leaf_hash)
        (λ m v. record m { leaf_hash = v }) (λ m a b. refl) (λ p. p.leaf_hash)
      ∷ bool_row w L rt 16 (omega arith) "isAddition" (λ m. m.is_addition)
          (λ m v. record m { is_addition = v }) (λ m a b. refl) (λ p. p.is_addition)
      ∷ []

  pub BatchOperation-OfRows : OfRows (fns w rt) embed (λ m. m) rows base empty
  unfolding encode decode from_json to_json from_partial create embed switch
  BatchOperation-OfRows = refl

  abbrev pub BatchOperation-Message : Message rt BatchOperation BatchOperationPartial
  BatchOperation-Message =
      rows-Message L (fns w rt) embed (λ m. m) rows base empty BatchOperation-OfRows (IsValid w)
        (λ m h. (tt, (tt, tt)))

-- Over a lawful wire and runtime, every BatchOperation
-- is read back from its bytes, as a whole buffer and inside a longer one, from its JSON and from its
-- partial form, also by `create`; and `encode` appends to what the writer holds.
pub BatchOperation-IsFaithful :
    (w : Wire)
    → IsLawful w
    → (rt : Runtime) → IsRuntime rt
    → (m : BatchOperation) → IsFaithful (fns w rt) embed m
BatchOperation-IsFaithful w L rt R m = Message-IsReadAs R (BatchOperation-Message w L rt) m tt
