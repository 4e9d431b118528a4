-- ===== src/Wire/Packed.antt =====
-- Packed repeated int32 fields: one tag, a length and the values behind each other.
use merkle_proof_service.Prelude.{
  ℕ, zero, suc, ℤ, IsWithin, ◌+◌, ◌^◌, ◌≤◌, ◌<◌, ◌≡◌, refl, sym, ap, ◌∙◌, some, List, [], ◌∷◌, ◌++◌,
  append-nil, append_assoc, inl, inr, arith, ltb, lt→ltb, le→ltb_false, if◌then◌else◌, Bool-cases,
  length, length-append, All,
}
use native.Mathlib.Nat.{add_assoc}
use merkle_proof_service.Wire.Binary.{
  Bytes, Wire, IsLawful, Reader, reader_at, Outcome, ok, stuck, ◌>>=◌, Writer, read, uint32,
  fork_join,
}
use merkle_proof_service.Wire.Loop.{Case, Handler, switch}
use merkle_proof_service.Wire.Steps.{read-Takes}
use merkle_proof_service.Wire.Fields.{Encodes, Encodes-same, Encodes-tagged}
use merkle_proof_service.Wire.Ends.{Ended, Ended-bind, read-Ended, get_uint32_le, Forward}

module _ (w : Wire) where
  -- for (const v of vs) { writer.int32(v); }
  unfoldable pub write_all_int32 : List ℤ → Writer → Writer
  write_all_int32 [] writer = writer
  write_all_int32 (v ∷ vs) writer = write_all_int32 vs (writer ++ w.put_int32 v)

  -- writer.uint32(tag).fork(); for (const v of vs) { writer.int32(v); } writer.join();
  unfoldable pub write_packed : ℕ → List ℤ → Writer → Writer
  write_packed tag vs writer = fork_join w (write_all_int32 vs) (uint32 w tag writer)

  module _ {ℓ} {M : Type ℓ} (put : M → ℤ → M) where
    -- message.f.push(reader.int32());
    unfoldable pub on_int32 : Handler M
    on_int32 m r = read w.get_int32 r >>= λ (v, r1). ok (put m v, r1)

    -- while (reader.pos < end2) { message.f.push(reader.int32()); }
    unfoldable pub packed_loop : ℕ → ℕ → Handler M
    packed_loop zero end2 m r = if ltb r.pos end2 then stuck else ok (m, r)
    packed_loop (suc fuel) end2 m r =
        let round : Outcome (M × Reader) =
          read w.get_int32 r >>= λ (v, r1). packed_loop fuel end2 (put m v) r1 in
        if ltb r.pos end2 then round else ok (m, r)

    -- const end2 = reader.uint32() + reader.pos; and the loop: a round takes a byte at least.
    unfoldable pub on_packed : Handler M
    on_packed m r =
        read w.get_uint32 r >>= λ (n, r1). packed_loop (suc (length r1.rest)) (n + r1.pos) m r1

  -- The values behind each other.
  abbrev int32_bytes : List ℤ → Bytes
  int32_bytes [] = []
  int32_bytes (v ∷ vs) = w.put_int32 v ++ int32_bytes vs

  write_all_int32-append :
      (vs : List ℤ) (writer : Writer) → write_all_int32 vs writer ≡ writer ++ int32_bytes vs
  unfolding write_all_int32
  write_all_int32-append [] writer = sym (append-nil writer)
  write_all_int32-append (v ∷ vs) writer =
      write_all_int32-append vs (writer ++ w.put_int32 v)
      ∙ append_assoc writer (w.put_int32 v) (int32_bytes vs)

  put_int32_pos : IsLawful w → (v : ℤ) → IsWithin (2 ^ 31) v → 0 < length (w.put_int32 v)
  put_int32_pos L v h = omega (
    arith,
    L.get_int32_takes (w.put_int32 v ++ []) v [] (L.get-put_int32 v [] h),
    length-append (w.put_int32 v) [],
  )

  module _ {ℓ} {M : Type ℓ} (L : IsLawful w) where
    pub on_int32-Forward : (put : M → ℤ → M) → Forward (on_int32 put)
    unfolding on_int32
    on_int32-Forward put m r =
        Ended-bind (λ k. k ≤ length r.rest) (λ k. k ≤ length r.rest) (read w.get_int32 r) _
          (read-Ended (λ k. k ≤ length r.rest) w.get_int32 r
            (λ a b e. omega (arith, L.get_int32_takes r.rest a b e)))
          (λ a r1 h. h)

    packed_loop-Ended :
        (put : M → ℤ → M) (fuel end2 : ℕ) (m : M) (r : Reader) (n : ℕ)
        → length r.rest < fuel
        → length r.rest ≤ n
        → Ended (λ k. k ≤ n) (packed_loop put fuel end2 m r)
    unfolding packed_loop
    packed_loop-Ended put zero end2 m r n h k = absurd (omega arith)
    packed_loop-Ended put (suc fuel) end2 m r n h k = elim (Bool-cases (ltb r.pos end2)) [
      | inr e ↦ rw e k
      | inl e ↦ rw e (
          Ended-bind (λ j. j < length r.rest) (λ j. j ≤ n) (read w.get_int32 r) _
            (read-Ended (λ j. j < length r.rest) w.get_int32 r
              (λ a b t. L.get_int32_takes r.rest a b t))
            (λ v r1 lt. packed_loop-Ended put fuel end2 (put m v) r1 n (omega arith) (omega arith)))
    ]

    pub on_packed-Forward : (put : M → ℤ → M) → Forward (on_packed put)
    unfolding on_packed
    on_packed-Forward put m r =
        Ended-bind (λ k. k ≤ length r.rest) (λ k. k ≤ length r.rest) (read w.get_uint32 r) _
          (read-Ended (λ k. k ≤ length r.rest) w.get_uint32 r
            (λ a b e. get_uint32_le w L r.rest a b e))
          (λ n r1 h.
            packed_loop-Ended put (suc (length r1.rest)) (n + r1.pos) m r1 (length r.rest)
              (omega arith) h)

    module _ (set : List ℤ → M) (put : M → ℤ → M)
        (keeps : (xs : List ℤ) (b : ℤ) → put (set xs) b ≡ set (xs ++ b ∷ [])) where
      -- The loop reads the values, behind those read before.
      packed_loop-int32_bytes :
          (vs xs : List ℤ)
          → All (IsWithin (2 ^ 31)) vs
          → (fuel end2 p : ℕ) (more : Bytes) → p + length (int32_bytes vs) ≡ end2
          → length (int32_bytes vs) ≤ fuel
          → packed_loop put fuel end2 (set xs) (reader_at p (int32_bytes vs ++ more))
            ≡ ok (set (xs ++ vs), reader_at end2 more)
      unfolding packed_loop
      packed_loop-int32_bytes [] xs h zero end2 p more here enough =
          rw (le→ltb_false p end2 (omega arith), append-nil)
            (ap (λ q. ok (set xs, reader_at q more)) (let e : p ≡ end2 = omega arith in e))
      packed_loop-int32_bytes [] xs h (suc fuel) end2 p more here enough =
          rw (le→ltb_false p end2 (omega arith), append-nil)
            (ap (λ q. ok (set xs, reader_at q more)) (let e : p ≡ end2 = omega arith in e))
      packed_loop-int32_bytes (v ∷ vs) xs (h, hs) zero end2 p more here enough =
          absurd
            (omega (arith, put_int32_pos L v h, length-append (w.put_int32 v) (int32_bytes vs)))
      packed_loop-int32_bytes (v ∷ vs) xs (h, hs) (suc fuel) end2 p more here enough =
          rw
            (
              lt→ltb p end2 (
                  omega
                    (arith, put_int32_pos L v h, length-append (w.put_int32 v) (int32_bytes vs))),
              append_assoc,
              read-Takes w.get_int32 (w.put_int32 v) v (λ r. L.get-put_int32 v r h) p
                  (int32_bytes vs ++ more),
              ◌>>=◌,
              keeps xs v,
            )
            (packed_loop-int32_bytes vs (xs ++ v ∷ []) hs fuel end2 (p + length (w.put_int32 v))
                more (omega (arith, length-append (w.put_int32 v) (int32_bytes vs)))
                (omega (arith, put_int32_pos L v h, length-append (w.put_int32 v) (int32_bytes vs)))
              ∙ ap (λ l. ok (set l, reader_at end2 more)) (append_assoc xs (v ∷ []) vs))

      pub Encodes-packed :
          (cs : List (Case M)) (t : ℕ)
          → t < 2 ^ 32
          → switch t cs ≡ some (on_packed put)
          → (vs : List ℤ) → All (IsWithin (2 ^ 31)) vs
          → length (write_all_int32 vs []) < 2 ^ 32
          → Encodes w cs (write_packed t vs) (set []) (set vs)
      unfolding write_packed fork_join uint32 on_packed
      Encodes-packed cs t small chosen vs h fits =
          Encodes-same w cs (λ writer. rw (write_all_int32-append vs [], L.delimit_lem) refl)
            (Encodes-tagged w L cs t (w.put_uint32 n ++ int32_bytes vs) (on_packed put) small chosen
              (λ p more.
                rw
                  (
                    append_assoc,
                    length-append (w.put_uint32 n) (int32_bytes vs),
                    ← add_assoc,
                    read-Takes w.get_uint32 (w.put_uint32 n) n (λ r. L.get-put_uint32 n r short) p
                        (int32_bytes vs ++ more),
                    ◌>>=◌,
                  )
                  (packed_loop-int32_bytes vs [] h (suc (length (int32_bytes vs ++ more)))
                      (n + (p + length (w.put_uint32 n))) (p + length (w.put_uint32 n)) more
                      (omega arith) (omega (arith, length-append (int32_bytes vs) more))
                    ∙ ap (λ q. ok (set vs, reader_at q more))
                        (turned (p + length (w.put_uint32 n))))))
        where
          n : ℕ
          n = length (int32_bytes vs)

          turned : (q : ℕ) → n + q ≡ q + n
          turned q = omega arith

          short : n < 2 ^ 32
          short = rw (write_all_int32-append vs []) at fits
