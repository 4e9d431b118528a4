-- ===== src/Wire/Loop.antt =====
-- The statements of `encode` and the loop of `decode` that each message of gen/ts has.
use text.Mathlib.Text.{◌==◌ as str_eq}
use merkle_proof_service.Prelude.{
  ℕ, zero, suc, ◌+◌, ◌/◌, ◌%◌, String, Bool, ◌||◌, Option, none, some, List, [], ◌∷◌, ltb, ◌==◌,
  if◌then◌else◌, length,
}
use merkle_proof_service.Wire.Binary.{
  Wire, Reader, Writer, Outcome, ok, stuck, ◌>>=◌, read, skip, uint32, string, bool, fork_join,
}

-- Statements of `encode`, one after the other.
infixl 6 ◌▸◌
abbrev pub ◌▸◌ : (Writer → Writer) → (Writer → Writer) → Writer → Writer
◌▸◌ f g writer = g (f writer)

module _ (w : Wire) where
  -- if (v !== "") { writer.uint32(tag).string(v); }
  unfoldable pub write_string : ℕ → String → Writer → Writer
  write_string tag v writer = if str_eq v "" then writer else string w v (uint32 w tag writer)

  -- if (v !== 0) { writer.uint32(tag).uint32(v); }
  unfoldable pub write_uint32 : ℕ → ℕ → Writer → Writer
  write_uint32 tag v writer = if v == 0 then writer else uint32 w v (uint32 w tag writer)

  -- if (v !== false) { writer.uint32(tag).bool(v); }
  unfoldable pub write_bool : ℕ → Bool → Writer → Writer
  write_bool tag v writer = if v then bool w v (uint32 w tag writer) else writer

  -- for (const v of vs) { writer.uint32(tag).string(v!); }
  unfoldable pub write_strings : ℕ → List String → Writer → Writer
  write_strings tag [] writer = writer
  write_strings tag (v ∷ vs) writer = write_strings tag vs (string w v (uint32 w tag writer))

module _ {ℓ} {M : Type ℓ} (w : Wire) (encode : M → Writer → Writer) where
  -- if (v !== undefined) { M.encode(v, writer.uint32(tag).fork()).join(); }
  unfoldable pub write_message : ℕ → Option M → Writer → Writer
  write_message tag none writer = writer
  write_message tag (some v) writer = fork_join w (encode v) (uint32 w tag writer)

  -- for (const v of vs) { M.encode(v!, writer.uint32(tag).fork()).join(); }
  unfoldable pub write_messages : ℕ → List M → Writer → Writer
  write_messages tag [] writer = writer
  write_messages tag (v ∷ vs) writer =
      write_messages tag vs (fork_join w (encode v) (uint32 w tag writer))

-- What a case of the switch does to the message and the reader.
abbrev pub Handler {ℓ} : Type ℓ → Type ℓ
Handler M = M → Reader → Outcome (M × Reader)

-- case number: { if (tag !== expected) { break; } … continue; }, or
-- case number: { if (tag === one) { … continue; } if (tag === packed) { … continue; } break; }
pub data Case {ℓ} (M : Type ℓ) : Type ℓ where
  case_at : ℕ → ℕ → Handler M → Case M
  packed_at : ℕ → ℕ → Handler M → ℕ → Handler M → Case M

module _ {ℓ} {M : Type ℓ} where
  abbrev pub case_number : Case M → ℕ
  case_number (case_at number expected handler) = number
  case_number (packed_at number one push packed push_all) = number

  -- What is done at a tag; `none` is a `break`.
  abbrev pub accepts : ℕ → Case M → Option (Handler M)
  accepts tag (case_at number expected handler) = if tag == expected then some handler else none
  accepts tag (packed_at number one push packed push_all) =
      if tag == one then some push else (if tag == packed then some push_all else none)

module _ {ℓ} {M : Type ℓ} where
  -- switch (tag >>> 3): `none` is the way out behind the switch, by a `break` or with no case.
  unfoldable pub switch : ℕ → List (Case M) → Option (Handler M)
  switch tag [] = none
  switch tag (c ∷ cs) = if tag / 8 == case_number c then accepts tag c else switch tag cs

  -- while (reader.pos < end) { … }
  unfoldable pub decode_loop : Wire → List (Case M) → ℕ → ℕ → M → Reader → Outcome (M × Reader)
  decode_loop w cs zero end m r = if ltb r.pos end then stuck else ok (m, r)
  decode_loop w cs (suc fuel) end m r =
      let round : Outcome (M × Reader) = read w.get_uint32 r >>= λ (tag, r1). elim (switch tag cs) [
        | some handler ↦ handler m r1 >>= λ (m2, r2). decode_loop w cs fuel end m2 r2
        | none ↦
            let go_on : Outcome (M × Reader) =
              skip w (tag % 8) r1 >>= λ r2. decode_loop w cs fuel end m r2 in
            if tag % 8 == 4 || tag == 0 then ok (m, r1) else go_on
      ] in
      if ltb r.pos end then round else ok (m, r)

-- `decode(input, length)` on a reader. Each round takes a byte at least, and the last one may find
-- the buffer empty.
abbrev pub Decoder {ℓ} : Type ℓ → Type ℓ
Decoder M = Reader → Option ℕ → Outcome (M × Reader)

abbrev end_of : Reader → Option ℕ → ℕ
end_of r none = r.pos + length r.rest
end_of r (some n) = r.pos + n

unfoldable pub decode_with {ℓ} : {M : Type ℓ} → Wire → List (Case M) → M → Decoder M
unfolding decode_loop read skip switch
decode_with w cs base r n = decode_loop w cs (suc (length r.rest)) (end_of r n) base r

-- The statements under a case: a field read and stored, or pushed.
module _ {ℓ} {M : Type ℓ} (w : Wire) where
  -- message.f = reader.string(); message.f.push(reader.string());
  unfoldable pub on_string : (M → String → M) → Handler M
  on_string put m r = read w.get_string r >>= λ (v, r1). ok (put m v, r1)

  -- message.f = reader.uint32();
  unfoldable pub on_uint32 : (M → ℕ → M) → Handler M
  on_uint32 put m r = read w.get_uint32 r >>= λ (v, r1). ok (put m v, r1)

  -- message.f = reader.bool();
  unfoldable pub on_bool : (M → Bool → M) → Handler M
  on_bool put m r = read w.get_bool r >>= λ (v, r1). ok (put m v, r1)

  -- message.f = T.decode(reader, reader.uint32()); message.f.push(T.decode(…));
  unfoldable pub on_message {κ} : {V : Type κ} → Decoder V → (M → V → M) → Handler M
  on_message decode put m r =
      read w.get_uint32 r >>= λ (n, r1). decode r1 (some n) >>= λ (v, r2). ok (put m v, r2)
