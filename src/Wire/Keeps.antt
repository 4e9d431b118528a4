-- ===== src/Wire/Keeps.antt =====
-- What every message that `decode` returns has: a property that the base message has and every case of
-- the switch keeps, on any input.
use merkle_proof_service.Prelude.{
  ℕ, zero, suc, ◌/◌, ◌%◌, ◌≡◌, subst, ◌||◌, Option, none, some, List, [], ◌∷◌, inl, inr, ltb, ◌==◌,
  if◌then◌else◌, Bool-cases, Option-cases, length, All,
}
use merkle_proof_service.Wire.Binary.{
  Bytes, Wire, Reader, Outcome, ok, throw, stuck, ◌>>=◌, read, skip,
}
use merkle_proof_service.Wire.Loop.{
  Case, case_at, packed_at, case_number, accepts, Handler, Decoder, switch, decode_loop,
  decode_with, on_message,
}

-- The message of an outcome, if it has one.
abbrev pub Yields : {A : Type 0} → (A → Type 0) → Outcome (A × Reader) → Type 0
Yields Q (ok (a, r)) = Q a
Yields Q throw = Unit
Yields Q stuck = Unit

Yields-bind :
    {A B : Type 0} (P : A → Type 0) (Q : B → Type 0) (o : Outcome (A × Reader))
    (f : A × Reader → Outcome (B × Reader))
    → Yields P o
    → ((a : A) (r : Reader) → P a → Yields Q (f (a, r)))
    → Yields Q (o >>= f)
Yields-bind P Q (ok (a, r)) f h k = k a r h
Yields-bind P Q throw f h k = tt
Yields-bind P Q stuck f h k = tt

any : {A : Type 0} (o : Outcome (A × Reader)) → Yields (λ a. Unit) o
any (ok (a, r)) = tt
any throw = tt
any stuck = tt

module _ {M : Type 0} (Q : M → Type 0) where
  abbrev pub Keeps : Handler M → Type 0
  Keeps h = (m : M) (r : Reader) → Q m → Yields Q (h m r)

  abbrev pub KeepsCase : Case M → Type 0
  KeepsCase (case_at number expected handler) = Keeps handler
  KeepsCase (packed_at number one push packed push_all) = Keeps push × Keeps push_all

  -- A value read and stored.
  pub store-Keeps :
      {A : Type 0} (P : A → Type 0) (get : Bytes → Option (A × Bytes))
      → ((b : Bytes) (a : A) (rest : Bytes) → get b ≡ some (a, rest) → P a)
      → (put : M → A → M) → ((m : M) (a : A) → P a → Q m → Q (put m a))
      → Keeps (λ m r. read get r >>= λ (v, r1). ok (put m v, r1))
  unfolding read
  store-Keeps P get bound put keeps m r q = elim (Option-cases (get r.rest)) [
    | inl e ↦ rw (e, read) tt
    | inr ((a, b), e) ↦ rw (e, read) (keeps m a (bound r.rest a b e) q)
  ]

  pub on_message-Keeps :
      (w : Wire) {V : Type 0} (decode : Decoder V) (put : M → V → M)
      → ((m : M) (v : V) → Q m → Q (put m v))
      → Keeps (on_message w decode put)
  unfolding on_message
  on_message-Keeps w decode put keeps m r q =
      Yields-bind (λ n. Unit) Q (read w.get_uint32 r) _ (any _)
        (λ n r1 _. Yields-bind (λ v. Unit) Q (decode r1 (some n)) _ (any _) (λ v r2 _. keeps m v q))

  chosen-Keeps :
      (tag expected : ℕ) (f h : Handler M)
      → Keeps f
      → (if tag == expected then some f else none) ≡ some h
      → Keeps h
  chosen-Keeps tag expected f h keeps e = elim (Bool-cases (tag == expected)) [
    | inl b ↦ subst Keeps (let same : f ≡ h = cc (rw b at e) in same) keeps
    | inr b ↦ cc (rw b at e)
  ]

  accepts-Keeps :
      (c : Case M) (tag : ℕ) (h : Handler M) → KeepsCase c → accepts tag c ≡ some h → Keeps h
  accepts-Keeps (case_at number expected handler) tag h f e =
      chosen-Keeps tag expected handler h f e
  accepts-Keeps (packed_at number one push packed push_all) tag h (f, g) e =
      elim (Bool-cases (tag == one)) [
        | inl b ↦ subst Keeps (let same : push ≡ h = cc (rw b at e) in same) f
        | inr b ↦ chosen-Keeps tag packed push_all h g (rw b at e)
      ]

  switch-Keeps :
      (tag : ℕ) (cs : List (Case M)) (h : Handler M)
      → All KeepsCase cs
      → switch tag cs ≡ some h
      → Keeps h
  unfolding switch
  switch-Keeps tag [] h ks e = cc
  switch-Keeps tag (c ∷ cs) h (k, ks) e = elim (Bool-cases (tag / 8 == case_number c)) [
    | inl a ↦ accepts-Keeps c tag h k (rw a at e)
    | inr a ↦ switch-Keeps tag cs h ks (rw a at e)
  ]

  module _ (w : Wire) (cs : List (Case M)) (keeps : All KeepsCase cs) where
    decode_loop-Yields :
        (fuel end : ℕ) (m : M) (r : Reader) → Q m → Yields Q (decode_loop w cs fuel end m r)
    unfolding decode_loop skip
    decode_loop-Yields zero end m r q = elim (Bool-cases (ltb r.pos end)) [
      | inl e ↦ rw e tt
      | inr e ↦ rw e q
    ]
    decode_loop-Yields (suc fuel) end m r q = elim (Bool-cases (ltb r.pos end)) [
      | inr e ↦ rw e q
      | inl e ↦ rw e (
          Yields-bind (λ n. Unit) Q (read w.get_uint32 r) _ (any _)
            (λ tag r1 _. elim (Option-cases (switch tag cs)) [
              | inl none_of ↦ rw none_of (elim (Bool-cases (tag % 8 == 4 || tag == 0)) [
                | inl last ↦ rw last q
                | inr more ↦ rw more (elim (Option-cases (w.skip_field (tag % 8) r1.rest)) [
                  | inl s ↦ rw (s, skip) tt
                  | inr (b, s) ↦ rw (s, skip) (decode_loop-Yields fuel end m _ q)
                ])
              ])
              | inr (handler, found) ↦ rw found (
                  Yields-bind Q Q (handler m r1) _ (switch-Keeps tag cs handler keeps found m r1 q)
                    (λ m2 r2 q2. decode_loop-Yields fuel end m2 r2 q2))
            ]))
    ]

    pub decode_with-Yields :
        (base : M) → Q base → (r : Reader) (n : Option ℕ) → Yields Q (decode_with w cs base r n)
    unfolding decode_with
    decode_with-Yields base q r n = decode_loop-Yields (suc (length r.rest)) _ base r q
