-- ===== src/Wire/Steps.antt =====
-- How the decoding loop reads what the statements of `encode` wrote.
use merkle_proof_service.Prelude.{
  ℕ, zero, suc, ◌+◌, ◌-◌, ◌^◌, ◌≤◌, ◌<◌, ◌≡◌, refl, ◌∙◌, Option, none, some, List, [], ◌++◌,
  append-nil, append_assoc, arith, lt→ltb, le→ltb_false, length, length-append,
}
use native.Mathlib.Nat.{add_assoc, zero-add}
use merkle_proof_service.Wire.Binary.{Bytes, Wire, IsLawful, reader_at, ok, ◌>>=◌, read}
use merkle_proof_service.Wire.Loop.{Case, Handler, switch, decode_loop, decode_with}

-- `get` takes the bytes `b` off and yields `v`.
abbrev pub Takes {ℓ} : {A : Type ℓ} → (Bytes → Option (A × Bytes)) → Bytes → A → Type ℓ
Takes get b v = (more : Bytes) → get (b ++ more) ≡ some (v, more)

pub read-Takes {ℓ} :
    {A : Type ℓ} (get : Bytes → Option (A × Bytes)) (b : Bytes) (v : A)
    → Takes get b v
    → (p : ℕ) (more : Bytes)
    → read get (reader_at p (b ++ more)) ≡ ok (v, reader_at (p + length b) more)
unfolding read
read-Takes get b v h p more = rw (h more, read) (rw (moved) refl)
  where
    moved : p + (length (b ++ more) - length more) ≡ p + length b
    moved = omega (arith, length-append b more)

module _ {ℓ} {M : Type ℓ} (w : Wire) (cs : List (Case M)) where
  -- Reading `b` takes the message from `m` to `n`, whatever follows, at a round a byte at most.
  pub record Steps (b : Bytes) (m n : M) : Type ℓ where
    pub run :
        (fuel end p : ℕ) (more : Bytes)
        → p + length b ≤ end
        → length b ≤ fuel
        → (left : ℕ) × (fuel ≤ left + length b)
          × (decode_loop w cs fuel end m (reader_at p (b ++ more))
              ≡ decode_loop w cs left end n (reader_at (p + length b) more))

  pub Steps-nil : (m : M) → Steps [] m m
  Steps-nil m = record { run = λ fuel end p more h k. (fuel, omega arith, rw (same p) refl) }
    where
      same : (p : ℕ) → p + 0 ≡ p
      same p = omega arith

  pub Steps-append : {m n o : M} {b c : Bytes} → Steps b m n → Steps c n o → Steps (b ++ c) m o
  Steps-append {m} {n} {o} {b} {c} first second = record {
    run = λ fuel end p more h k.
        let s = first.run fuel end p (c ++ more) (omega (arith, size)) (omega (arith, size)) in
        let t =
          second.run s.0 end (p + length b) more (omega (arith, size)) (omega (arith, size, s.1)) in
        (t.0, omega (arith, size, s.1, t.1), rw (append_assoc, size, ← add_assoc) (s.2 ∙ t.2));
  }
    where
      size : length (b ++ c) ≡ length b + length c
      size = length-append b c

  pub put_uint32_pos : IsLawful w → (t : ℕ) → t < 2 ^ 32 → 0 < length (w.put_uint32 t)
  put_uint32_pos L t small = omega (
    arith,
    L.get_uint32_takes (w.put_uint32 t ++ []) t [] (L.get-put_uint32 t [] small),
    length-append (w.put_uint32 t) [],
  )

  -- One round of the loop at the tag `t`, with a payload that its case reads.
  round_case :
      IsLawful w
      → (t : ℕ) (payload : Bytes) (handler : Handler M) {m n : M} → t < 2 ^ 32
      → switch t cs ≡ some handler
      → ((p : ℕ) (more : Bytes)
          → handler m (reader_at p (payload ++ more)) ≡ ok (n, reader_at (p + length payload) more))
      → (fuel end p : ℕ) (more : Bytes) → p < end
      → decode_loop w cs (suc fuel) end m (reader_at p (w.put_uint32 t ++ (payload ++ more)))
        ≡ decode_loop w cs fuel end n
            (reader_at (p + length (w.put_uint32 t) + length payload) more)
  unfolding decode_loop
  round_case L t payload handler small chosen reads fuel end p more h =
      rw
        (
          lt→ltb p end h,
          read-Takes w.get_uint32 (w.put_uint32 t) t (λ r. L.get-put_uint32 t r small) p
              (payload ++ more),
          ◌>>=◌,
        )
        (rw chosen (rw (reads (p + length (w.put_uint32 t)) more)))

  pub Steps-case :
      IsLawful w
      → (t : ℕ) (payload : Bytes) (handler : Handler M) {m n : M} → t < 2 ^ 32
      → switch t cs ≡ some handler
      → ((p : ℕ) (more : Bytes)
          → handler m (reader_at p (payload ++ more)) ≡ ok (n, reader_at (p + length payload) more))
      → Steps (w.put_uint32 t ++ payload) m n
  Steps-case L t payload handler {m} {n} small chosen reads = record { run = go }
    where
      size : length (w.put_uint32 t ++ payload) ≡ length (w.put_uint32 t) + length payload
      size = length-append (w.put_uint32 t) payload

      go :
          (fuel end p : ℕ) (more : Bytes)
          → p + length (w.put_uint32 t ++ payload) ≤ end
          → length (w.put_uint32 t ++ payload) ≤ fuel
          → (left : ℕ) × (fuel ≤ left + length (w.put_uint32 t ++ payload))
            × (decode_loop w cs fuel end m (reader_at p ((w.put_uint32 t ++ payload) ++ more))
                ≡ decode_loop w cs left end n
                    (reader_at (p + length (w.put_uint32 t ++ payload)) more))
      go zero end p more h k = absurd (omega (arith, size, put_uint32_pos L t small))
      go (suc fuel) end p more h k = (
        fuel,
        omega (arith, size, put_uint32_pos L t small),
        rw (append_assoc, size, ← add_assoc)
            (round_case L t payload handler small chosen reads fuel end p more
              (omega (arith, size, put_uint32_pos L t small))),
      )

  loop_at_end :
      (fuel e p : ℕ) (m : M) (more : Bytes)
      → p ≡ e
      → decode_loop w cs fuel e m (reader_at p more) ≡ ok (m, reader_at p more)
  unfolding decode_loop
  loop_at_end zero e p m more h = rw (le→ltb_false p e (omega arith)) refl
  loop_at_end (suc fuel) e p m more h = rw (le→ltb_false p e (omega arith)) refl

  -- `decode(reader, length)` reads exactly the bytes of one message.
  pub decode_with-Steps :
      {base m : M} {b : Bytes}
      → Steps b base m
      → (p : ℕ) (more : Bytes)
      → decode_with w cs base (reader_at p (b ++ more)) (some (length b))
        ≡ ok (m, reader_at (p + length b) more)
  unfolding decode_with
  decode_with-Steps {base} {m} {b} s p more =
      let t =
        s.run (suc (length (b ++ more))) (p + length b) p more (omega arith)
          (omega (arith, length-append b more)) in
      t.2 ∙ loop_at_end t.0 (p + length b) (p + length b) m more refl

  -- So does `decode(bytes)`, to the end of the buffer.
  pub decode_with-Steps_all :
      {base m : M} {b : Bytes}
      → Steps b base m
      → decode_with w cs base (reader_at 0 b) none ≡ ok (m, reader_at (length b) [])
  unfolding decode_with
  decode_with-Steps_all {base} {m} {b} s =
      let t = s.run (suc (length b)) (0 + length b) 0 [] (omega arith) (omega arith) in
      rw zero-add (rw (append-nil, zero-add) at (t.2 ∙ loop_at_end t.0 _ _ m [] refl))
