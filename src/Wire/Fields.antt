-- ===== src/Wire/Fields.antt =====
-- Statements of `encode` for strings, numbers and flags, and their cases of `decode`.
use text.Mathlib.Text.{◌==◌ as str_eq}
use text.Mathlib.TextEquality.{eq_iff}
use merkle_proof_service.Prelude.{
  ℕ, ◌+◌, ◌^◌, ◌<◌, ◌≡◌, refl, ap, subst, ◌∙◌, String, Bool, true, false, none, some, List, [], ◌∷◌,
  ◌++◌, append-nil, append_assoc, inl, inr, ==→eq, ◌==◌, Bool-cases, length,
}
use merkle_proof_service.Wire.Binary.{
  Bytes, Wire, IsLawful, Reader, reader_at, Outcome, ok, Writer, uint32, string, bool,
}
use merkle_proof_service.Wire.Loop.{
  Case, Decoder, switch, decode_with, ◌▸◌, write_string, write_uint32, write_bool, write_strings,
  on_string, on_uint32, on_bool,
}
use merkle_proof_service.Wire.Steps.{
  read-Takes, Steps, Steps-nil, Steps-append, Steps-case, decode_with-Steps, decode_with-Steps_all,
}

-- `encode` appends bytes of `v` that `decode` reads as `n`, embedded or as the whole buffer.
pub record CodedAs {ℓ} {V : Type ℓ} (encode : V → Writer → Writer) (decode : Decoder V) (v n : V)
    : Type ℓ where
  pub bytes : Bytes
  pub appends : (writer : Writer) → encode v writer ≡ writer ++ bytes
  pub embedded :
      (p : ℕ) (more : Bytes)
      → decode (reader_at p (bytes ++ more)) (some (length bytes))
        ≡ ok (n, reader_at (p + length bytes) more)
  pub whole : decode (reader_at 0 bytes) none ≡ ok (n, reader_at (length bytes) [])

-- … that `decode` reads back.
abbrev pub Coded {ℓ} : {V : Type ℓ} → (V → Writer → Writer) → Decoder V → V → Type ℓ
Coded encode decode v = CodedAs encode decode v v

module _ {ℓ} {M : Type ℓ} (w : Wire) (cs : List (Case M)) where
  pub record Encodes (f : Writer → Writer) (m n : M) : Type ℓ where
    pub bytes : Bytes
    pub appends : (writer : Writer) → f writer ≡ writer ++ bytes
    pub steps : Steps w cs bytes m n

  pub Encodes-seq :
      {f g : Writer → Writer} {m n o : M} → Encodes f m n → Encodes g n o → Encodes (f ▸ g) m o
  Encodes-seq {g = g} a b = record {
    bytes = a.bytes ++ b.bytes;
    appends = λ writer.
        ap g (a.appends writer)
        ∙ b.appends (writer ++ a.bytes)
        ∙ append_assoc writer a.bytes b.bytes;
    steps = Steps-append w cs a.steps b.steps;
  }

  pub Encodes-skip :
      {f : Writer → Writer} (m : M) → ((writer : Writer) → f writer ≡ writer) → Encodes f m m
  Encodes-skip m same = record {
    bytes = [];
    appends = λ writer. rw append-nil (same writer);
    steps = Steps-nil w cs m;
  }

  pub Encodes-same :
      {f g : Writer → Writer} {m n : M}
      → ((writer : Writer) → f writer ≡ g writer)
      → Encodes g m n
      → Encodes f m n
  Encodes-same same e = record {
    bytes = e.bytes;
    appends = λ writer. same writer ∙ e.appends writer;
    steps = e.steps;
  }

  -- A message whose fields are written and read back one by one.
  pub Encodes-Coded :
      {encode : M → Writer → Writer} {base n : M} (m : M)
      → Encodes (encode m) base n
      → CodedAs encode (decode_with w cs base) m n
  Encodes-Coded m e = record {
    bytes = e.bytes;
    appends = e.appends;
    embedded = decode_with-Steps w cs e.steps;
    whole = decode_with-Steps_all w cs e.steps;
  }

module _ {ℓ} {M : Type ℓ} (w : Wire) (L : IsLawful w) (cs : List (Case M)) where
  pub Encodes-tagged :
      (t : ℕ) (payload : Bytes) (handler : M → Reader → Outcome (M × Reader)) {m n : M}
      → t < 2 ^ 32
      → switch t cs ≡ some handler
      → ((p : ℕ) (more : Bytes)
          → handler m (reader_at p (payload ++ more)) ≡ ok (n, reader_at (p + length payload) more))
      → Encodes w cs (λ writer. (writer ++ w.put_uint32 t) ++ payload) m n
  Encodes-tagged t payload handler small chosen reads = record {
    bytes = w.put_uint32 t ++ payload;
    appends = λ writer. append_assoc writer (w.put_uint32 t) payload;
    steps = Steps-case w cs L t payload handler small chosen reads;
  }

  -- A string field; `set` gives the message for each value of the field.
  pub Encodes-string :
      (t : ℕ) (set : String → M) (put : M → String → M)
      → t < 2 ^ 32
      → switch t cs ≡ some (on_string w put)
      → ((a b : String) → put (set a) b ≡ set b)
      → (v : String) → Encodes w cs (write_string w t v) (set "") (set v)
  unfolding write_string string uint32 on_string
  Encodes-string t set put small chosen keeps v = elim (Bool-cases (str_eq v "")) [
    | inl e ↦
        rw (let e' : v ≡ "" = (eq_iff v "").0 e in e') (Encodes-skip w cs (set "") (λ writer. refl))
    | inr e ↦
        Encodes-same w cs (λ writer. rw e)
          (Encodes-tagged t (w.put_string v) (on_string w put) small chosen (λ p more.
            rw (read-Takes w.get_string (w.put_string v) v (L.get-put_string v) p more)
              (rw (keeps "" v))))
  ]

  pub Encodes-uint32 :
      (t : ℕ) (set : ℕ → M) (put : M → ℕ → M)
      → t < 2 ^ 32
      → switch t cs ≡ some (on_uint32 w put)
      → ((a b : ℕ) → put (set a) b ≡ set b)
      → (v : ℕ) → v < 2 ^ 32
      → Encodes w cs (write_uint32 w t v) (set 0) (set v)
  unfolding write_uint32 uint32 on_uint32
  Encodes-uint32 t set put small chosen keeps v fits = elim (Bool-cases (v == 0)) [
    | inl e ↦ rw (==→eq v 0 e) (Encodes-skip w cs (set 0) (λ writer. refl))
    | inr e ↦
        Encodes-same w cs (λ writer. rw e)
          (Encodes-tagged t (w.put_uint32 v) (on_uint32 w put) small chosen (λ p more.
            rw (read-Takes w.get_uint32 (w.put_uint32 v) v (λ r. L.get-put_uint32 v r fits) p more)
              (rw (keeps 0 v))))
  ]

  pub Encodes-bool :
      (t : ℕ) (set : Bool → M) (put : M → Bool → M)
      → t < 2 ^ 32
      → switch t cs ≡ some (on_bool w put)
      → ((a b : Bool) → put (set a) b ≡ set b)
      → (v : Bool) → Encodes w cs (write_bool w t v) (set false) (set v)
  unfolding write_bool bool uint32 on_bool
  Encodes-bool t set put small chosen keeps false = Encodes-skip w cs (set false) (λ writer. refl)
  Encodes-bool t set put small chosen keeps true =
      Encodes-same w cs (λ writer. refl)
        (Encodes-tagged t (w.put_bool true) (on_bool w put) small chosen (λ p more.
          rw (read-Takes w.get_bool (w.put_bool true) true (L.get-put_bool true) p more)
            (rw (keeps false true))))

  -- A repeated string field, behind the items read before.
  strings_behind :
      (t : ℕ) (set : List String → M) (put : M → String → M)
      → t < 2 ^ 32
      → switch t cs ≡ some (on_string w put)
      → ((xs : List String) (b : String) → put (set xs) b ≡ set (xs ++ b ∷ []))
      → (xs vs : List String) → Encodes w cs (write_strings w t vs) (set xs) (set (xs ++ vs))
  unfolding write_strings string uint32 on_string
  strings_behind t set put small chosen keeps xs [] =
      rw append-nil (Encodes-skip w cs (set xs) (λ writer. refl))
  strings_behind t set put small chosen keeps xs (v ∷ vs) =
      subst (λ l. Encodes w cs (write_strings w t (v ∷ vs)) (set xs) (set l))
        (append_assoc xs (v ∷ []) vs)
        (Encodes-seq w cs
          (Encodes-tagged t (w.put_string v) (on_string w put) small chosen (λ p more.
            rw (read-Takes w.get_string (w.put_string v) v (L.get-put_string v) p more)
              (rw (keeps xs v))))
          (strings_behind t set put small chosen keeps (xs ++ v ∷ []) vs))

  pub Encodes-strings :
      (t : ℕ) (set : List String → M) (put : M → String → M)
      → t < 2 ^ 32
      → switch t cs ≡ some (on_string w put)
      → ((xs : List String) (b : String) → put (set xs) b ≡ set (xs ++ b ∷ []))
      → (vs : List String) → Encodes w cs (write_strings w t vs) (set []) (set vs)
  Encodes-strings t set put small chosen keeps vs =
      strings_behind t set put small chosen keeps [] vs
