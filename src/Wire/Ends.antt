-- ===== src/Wire/Ends.antt =====
-- How the loop of `decode` ends, and where the reader then stands.
use merkle_proof_service.Prelude.{
  ℕ, zero, suc, ◌/◌, ◌%◌, ◌≤◌, ◌<◌, ◌≡◌, subst, Bool, ◌||◌, Option, none, some, List, [], ◌∷◌, inl,
  inr, arith, ltb, ◌==◌, if◌then◌else◌, Bool-cases, Option-cases, length, All, String,
}
use merkle_proof_service.Wire.Binary.{
  Bytes, Wire, IsLawful, Reader, Outcome, ok, throw, stuck, ◌>>=◌, read, skip,
}
use merkle_proof_service.Wire.Loop.{
  Case, case_at, packed_at, case_number, accepts, Handler, Decoder, switch, decode_loop,
  decode_with, on_string, on_uint32, on_bool, on_message,
}

-- The call threw, or returned with a number of bytes left that `P` holds of.
abbrev pub Ended {ℓ} : {A : Type ℓ} → (ℕ → Type 0) → Outcome (A × Reader) → Type 0
Ended P (ok (a, r)) = P (length r.rest)
Ended P throw = Unit
Ended P stuck = ⊥

pub Ended-bind {ℓ κ} :
    {A : Type ℓ} {B : Type κ} (P Q : ℕ → Type 0) (o : Outcome (A × Reader))
    (f : A × Reader → Outcome (B × Reader))
    → Ended P o
    → ((a : A) (r : Reader) → P (length r.rest) → Ended Q (f (a, r)))
    → Ended Q (o >>= f)
Ended-bind P Q (ok (a, r)) f h k = k a r h
Ended-bind P Q throw f h k = tt
Ended-bind P Q stuck f h k = h

Ended-map {ℓ} :
    {A : Type ℓ} (P Q : ℕ → Type 0) (o : Outcome (A × Reader))
    → ((k : ℕ) → P k → Q k)
    → Ended P o
    → Ended Q o
Ended-map P Q (ok (a, r)) f h = f _ h
Ended-map P Q throw f h = tt
Ended-map P Q stuck f h = h

pub read-Ended {ℓ} :
    {A : Type ℓ} (P : ℕ → Type 0) (get : Bytes → Option (A × Bytes)) (r : Reader)
    → ((a : A) (b : Bytes) → get r.rest ≡ some (a, b) → P (length b))
    → Ended P (read get r)
unfolding read
read-Ended P get r takes = elim (Option-cases (get r.rest)) [
  | inl e ↦ rw (e, read) tt
  | inr ((a, b), e) ↦ rw (e, read) (takes a b e)
]

skip-bind-Ended {ℓ} :
    {A : Type ℓ} (w : Wire)
    → IsLawful w
    → (k : ℕ) (r : Reader) (Q : ℕ → Type 0) (f : Reader → Outcome (A × Reader))
    → ((r2 : Reader) → length r2.rest ≤ length r.rest → Ended Q (f r2))
    → Ended Q (skip w k r >>= f)
unfolding skip
skip-bind-Ended w L k r Q f h = elim (Option-cases (w.skip_field k r.rest)) [
  | inl e ↦ rw (e, skip) tt
  | inr (b, e) ↦ rw (e, skip) (h _ (L.skip_takes k r.rest b e))
]

-- A handler that ends and does not move the reader back.
abbrev pub Forward {ℓ} : {M : Type ℓ} → Handler M → Type ℓ
Forward {M = M} h = (m : M) (r : Reader) → Ended (λ k. k ≤ length r.rest) (h m r)

-- A case whose handlers are all like that.
abbrev pub ForwardCase {ℓ} : {M : Type ℓ} → Case M → Type ℓ
ForwardCase (case_at number expected handler) = Forward handler
ForwardCase (packed_at number one push packed push_all) = Forward push × Forward push_all

chosen-Forward {ℓ} :
    {M : Type ℓ} (tag expected : ℕ) (f h : Handler M)
    → Forward f
    → (if tag == expected then some f else none) ≡ some h
    → Forward h
chosen-Forward tag expected f h forward e = elim (Bool-cases (tag == expected)) [
  | inl b ↦ subst Forward (let same : f ≡ h = cc (rw b at e) in same) forward
  | inr b ↦ cc (rw b at e)
]

accepts-Forward {ℓ} :
    {M : Type ℓ} (c : Case M) (tag : ℕ) (h : Handler M)
    → ForwardCase c
    → accepts tag c ≡ some h
    → Forward h
accepts-Forward (case_at number expected handler) tag h f e =
    chosen-Forward tag expected handler h f e
accepts-Forward (packed_at number one push packed push_all) tag h (f, g) e =
    elim (Bool-cases (tag == one)) [
      | inl b ↦ subst Forward (let same : push ≡ h = cc (rw b at e) in same) f
      | inr b ↦ chosen-Forward tag packed push_all h g (rw b at e)
    ]

module _ {ℓ} {M : Type ℓ} (w : Wire) (L : IsLawful w) (cs : List (Case M)) where
  switch-Forward :
      (tag : ℕ) (ds : List (Case M)) (h : Handler M)
      → All ForwardCase ds
      → switch tag ds ≡ some h
      → Forward h
  unfolding switch
  switch-Forward tag [] h fs e = cc
  switch-Forward tag (d ∷ ds) h (f, fs) e = elim (Bool-cases (tag / 8 == case_number d)) [
    | inl a ↦ accepts-Forward d tag h f (rw a at e)
    | inr a ↦ switch-Forward tag ds h fs (rw a at e)
  ]

  decode_loop-Ended :
      All ForwardCase cs
      → (fuel end : ℕ) (m : M) (r : Reader) → length r.rest < fuel
      → Ended (λ k. k ≤ length r.rest) (decode_loop w cs fuel end m r)
  unfolding decode_loop
  decode_loop-Ended fs zero end m r h = absurd (omega arith)
  decode_loop-Ended fs (suc fuel) end m r h = elim (Bool-cases (ltb r.pos end)) [
    | inr e ↦ rw e (omega arith)
    | inl e ↦ rw e (
        Ended-bind (λ k. k < length r.rest) (λ k. k ≤ length r.rest) (read w.get_uint32 r) _
          (read-Ended (λ k. k < length r.rest) w.get_uint32 r
            (λ a b t. L.get_uint32_takes r.rest a b t))
          (λ tag r1 lt.
            let later : (m2 : M) (r2 : Reader)
                → length r2.rest ≤ length r1.rest
                → Ended (λ k. k ≤ length r.rest) (decode_loop w cs fuel end m2 r2) =
              λ m2 r2 le.
                Ended-map (λ k. k ≤ length r2.rest) (λ k. k ≤ length r.rest) _ (λ k x. omega arith)
                  (decode_loop-Ended fs fuel end m2 r2 (omega arith)) in
            elim (Option-cases (switch tag cs)) [
              | inl none_of ↦ rw none_of (elim (Bool-cases (tag % 8 == 4 || tag == 0)) [
                | inl last ↦ rw last (omega arith)
                | inr more ↦
                    rw more (skip-bind-Ended w L (tag % 8) r1 (λ k. k ≤ length r.rest) _ (later m))
              ])
              | inr (handler, found) ↦ rw found (
                  Ended-bind (λ k. k ≤ length r1.rest) (λ k. k ≤ length r.rest) (handler m r1) _
                    (switch-Forward tag cs handler fs found m r1) later)
            ]))
  ]

  -- `decode` of a message whose handlers all end: it returns a message or throws, on every input.
  pub decode_with-Ended :
      All ForwardCase cs
      → (base : M) (r : Reader) (n : Option ℕ)
      → Ended (λ k. k ≤ length r.rest) (decode_with w cs base r n)
  unfolding decode_with
  decode_with-Ended fs base r n = decode_loop-Ended fs (suc (length r.rest)) _ base r (omega arith)

pub get_uint32_le :
    (w : Wire)
    → IsLawful w
    → (b : Bytes) (n : ℕ) (rest : Bytes) → w.get_uint32 b ≡ some (n, rest)
    → length rest ≤ length b
get_uint32_le w L b n rest e = omega (arith, L.get_uint32_takes b n rest e)

module _ {ℓ} {M : Type ℓ} (w : Wire) (L : IsLawful w) where
  pub store-Forward {κ} :
      {A : Type κ} (get : Bytes → Option (A × Bytes))
      → ((b : Bytes) (a : A) (rest : Bytes) → get b ≡ some (a, rest) → length rest ≤ length b)
      → (put : M → A → M) → Forward (λ m r. read get r >>= λ (v, r1). ok (put m v, r1))
  store-Forward get takes put m r =
      Ended-bind (λ k. k ≤ length r.rest) (λ k. k ≤ length r.rest) (read get r) _
        (read-Ended (λ k. k ≤ length r.rest) get r (λ a b e. takes r.rest a b e)) (λ a r1 h. h)

  pub on_string-Forward : (put : M → String → M) → Forward (on_string w put)
  unfolding on_string
  on_string-Forward put = store-Forward w.get_string L.get_string_takes put

  pub on_uint32-Forward : (put : M → ℕ → M) → Forward (on_uint32 w put)
  unfolding on_uint32
  on_uint32-Forward put = store-Forward w.get_uint32 (get_uint32_le w L) put

  pub on_bool-Forward : (put : M → Bool → M) → Forward (on_bool w put)
  unfolding on_bool
  on_bool-Forward put = store-Forward w.get_bool L.get_bool_takes put

  pub on_message-Forward {κ} :
      {V : Type κ} (decode : Decoder V)
      → ((r : Reader) (n : Option ℕ) → Ended (λ k. k ≤ length r.rest) (decode r n))
      → (put : M → V → M) → Forward (on_message w decode put)
  unfolding on_message
  on_message-Forward decode ends put m r =
      Ended-bind (λ k. k ≤ length r.rest) (λ k. k ≤ length r.rest) (read w.get_uint32 r) _
        (read-Ended (λ k. k ≤ length r.rest) w.get_uint32 r
          (λ a b e. get_uint32_le w L r.rest a b e))
        (λ n r1 h.
          Ended-bind (λ k. k ≤ length r1.rest) (λ k. k ≤ length r.rest) (decode r1 (some n)) _
            (ends r1 (some n)) (λ v r2 k. omega arith))
