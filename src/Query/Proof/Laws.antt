-- ===== src/Query/Proof/Laws.antt =====
-- Proof of gen/ts/galactica/merkle/query.ts: its fields, one by one.
use merkle_proof_service.Query.Proof.{
  Proof, ProofPartial, base, encode, decode, from_json, to_json, from_partial, create, empty, embed,
  fns,
}
use merkle_proof_service.Message.Fns.{IsFaithful}
use merkle_proof_service.Message.Statements.{List, [], ◌∷◌, Wire, Runtime}
use merkle_proof_service.Message.Fields.{
  refl, arith, ◌^◌, ◌<◌, IsLawful, switch, IsRuntime, Row, Message, uint32_row, string_row,
  strings_row, OfRows, rows-Message, Message-IsReadAs,
}

-- The numbers are uint32s.
abbrev pub IsValid : Wire → Proof → Type 0
IsValid w m = (m.index < 2 ^ 32)

module _ (w : Wire) (L : IsLawful w) (rt : Runtime) where
  abbrev pub rows : List (Row w rt Proof ProofPartial)
  rows =
      string_row w L rt 10 (omega arith) "leaf" (λ m. m.leaf) (λ m v. record m { leaf = v })
        (λ m a b. refl) (λ p. p.leaf)
      ∷ strings_row w L rt 18 (omega arith) "path" (λ m. m.path) (λ m v. record m { path = v })
          (λ m a b. refl) (λ p. p.path)
      ∷ uint32_row w L rt 24 (omega arith) "index" (λ m. m.index) (λ m v. record m { index = v })
          (λ m a b. refl) (λ p. p.index)
      ∷ string_row w L rt 34 (omega arith) "root" (λ m. m.root) (λ m v. record m { root = v })
          (λ m a b. refl) (λ p. p.root)
      ∷ []

  pub Proof-OfRows : OfRows (fns w rt) embed (λ m. m) rows base empty
  unfolding encode decode from_json to_json from_partial create embed switch
  Proof-OfRows = refl

  abbrev pub Proof-Message : Message rt Proof ProofPartial
  Proof-Message =
      rows-Message L (fns w rt) embed (λ m. m) rows base empty Proof-OfRows (IsValid w)
        (λ m h. (tt, (tt, (h, (tt, tt)))))

-- Over a lawful wire and runtime, every Proof whose index is a uint32
-- is read back from its bytes, as a whole buffer and inside a longer one, from its JSON and from its
-- partial form, also by `create`; and `encode` appends to what the writer holds.
pub Proof-IsFaithful :
    (w : Wire)
    → IsLawful w
    → (rt : Runtime) → IsRuntime rt
    → (m : Proof) → IsValid w m
    → IsFaithful (fns w rt) embed m
Proof-IsFaithful w L rt R m valid = Message-IsReadAs R (Proof-Message w L rt) m valid
