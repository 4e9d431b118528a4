-- ===== src/Message/Rows.antt =====
-- Messages by their rows: the functions that go through all fields, and what follows from the rows.
use merkle_proof_service.Prelude.{
  ℕ, ◌+◌, ◌≤◌, ◌≡◌, refl, sym, subst, ap, ◌∙◌, String, true, Option, some, List, [], ◌∷◌, length,
  All,
}
use merkle_proof_service.Wire.Binary.{Wire, IsLawful, Writer, Reader, reader_at, Outcome, ok, ◌>>=◌}
use merkle_proof_service.Wire.Loop.{Handler, Case, switch, decode_with}
use merkle_proof_service.Wire.Fields.{Encodes, Encodes-skip, Encodes-seq, Encodes-Coded, CodedAs}
use merkle_proof_service.Wire.Ends.{Ended, ForwardCase, decode_with-Ended}
use merkle_proof_service.Json.Value.{Value, undefined, is_set, Runtime, IsRuntime}
use merkle_proof_service.Json.Convert.{Entries, build, or_else}
use merkle_proof_service.Json.Entries.{
  find_row, Rows, none_left, row, property-Rows, optional_property-Rows,
}
use merkle_proof_service.Message.Fns.{MessageFns}
use merkle_proof_service.Message.Row.{Row, Message}

module _ {w : Wire} {rt : Runtime} {M P : Type 0} where
  abbrev pub write_all : List (Row w rt M P) → M → Writer → Writer
  write_all [] m writer = writer
  write_all (r ∷ rs) m writer = write_all rs m (r.write (r.get m) writer)

  abbrev pub entries_all : List (Row w rt M P) → M → List Entries
  entries_all [] m = []
  entries_all (r ∷ rs) m = r.entry (r.get m) ∷ entries_all rs m

  abbrev pub values_all : List (Row w rt M P) → M → List (String × Value)
  values_all [] m = []
  values_all (r ∷ rs) m = (r.key, r.value (r.get m)) ∷ values_all rs m

  abbrev pub read_all : List (Row w rt M P) → Value → M → Outcome M
  read_all [] o s = ok s
  read_all (r ∷ rs) o s = r.read o >>= λ a. read_all rs o (r.put s a)

  abbrev pub convert_all : List (Row w rt M P) → P → M → M
  convert_all [] p s = s
  convert_all (r ∷ rs) p s = convert_all rs p (r.put s (r.convert (r.pget p)))

  -- What is read of `m`, stored field by field.
  abbrev pub fill : List (Row w rt M P) → M → M → M
  fill [] m s = s
  fill (r ∷ rs) m s = fill rs m (r.put s (r.norm (r.get m)))

  abbrev pub IsValidAll : List (Row w rt M P) → M → Type 0
  IsValidAll [] m = Unit
  IsValidAll (r ∷ rs) m = r.IsValid (r.get m) × IsValidAll rs m

  -- What is asked of the rows of a message, row by row: the case of the tag, the message after the
  -- default is stored, the key among the later rows and among all, and the field of the partial message.
  abbrev pub Found : List (Row w rt M P) → Type 0
  Found [] = Unit
  Found (r ∷ rs) = (Option (Handler M) × M × Value × Value × r.PA) × Found rs

  abbrev pub found :
      List (Case M)
      → (M → P)
      → M
      → List (String × Value)
      → (rs : List (Row w rt M P)) → M
      → Found rs
  found cs embed m values [] s = tt
  found cs embed m values (r ∷ rs) s = (
    (
      switch r.tag cs,
      r.put s r.default,
      find_row r.key (values_all rs m),
      find_row r.key values,
      r.pget (embed m),
    ),
    found cs embed m values rs (r.put s (r.norm (r.get m))),
  )

  -- How the rows fit together: each has its case, a field that is still at its default, and a key of
  -- its own, and the partial message holds what the row embeds.
  abbrev pub fitting : M → (rs : List (Row w rt M P)) → M → Found rs
  fitting m [] s = tt
  fitting m (r ∷ rs) s = (
    (some r.handler, s, undefined, r.value (r.get m), r.embed (r.get m)),
    fitting m rs (r.put s (r.norm (r.get m))),
  )

  abbrev pub Fits :
      List (Case M) → (M → P) → M → List (String × Value) → List (Row w rt M P) → M → Type 0
  Fits cs embed m values rs s = found cs embed m values rs s ≡ fitting m rs s

  module _ (cs : List (Case M)) (embed : M → P) (m : M) (values : List (String × Value)) where
    pub fill-Encodes :
        (rs : List (Row w rt M P)) (s : M)
        → IsValidAll rs m
        → Fits cs embed m values rs s
        → Encodes w cs (write_all rs m) s (fill rs m s)
    fill-Encodes [] s valid fits = Encodes-skip w cs s (λ writer. refl)
    fill-Encodes (r ∷ rs) s (v, valid) fits =
        Encodes-seq w cs (r.encodes cs (ap (λ f. f.0.0) fits) s (r.get m) v (ap (λ f. f.0.1) fits))
          (fill-Encodes rs (r.put s (r.norm (r.get m))) valid (ap (λ f. f.1) fits))

    pub entries-Rows :
        (rs : List (Row w rt M P)) (s : M)
        → Fits cs embed m values rs s
        → Rows (entries_all rs m) (values_all rs m)
    entries-Rows [] s fits = none_left
    entries-Rows (r ∷ rs) s fits =
        row (r.is_entry (r.get m)) (ap (λ f. f.0.2) fits)
          (entries-Rows rs (r.put s (r.norm (r.get m))) (ap (λ f. f.1) fits))

    pub read_all-fill :
        IsRuntime rt
        → (es : List Entries) → Rows es values
        → (rs : List (Row w rt M P)) (s : M) → IsValidAll rs m
        → Fits cs embed m values rs s
        → read_all rs (build es) s ≡ ok (fill rs m s)
    read_all-fill R es given [] s valid fits = refl
    read_all-fill R es given (r ∷ rs) s (v, valid) fits =
        rw
          (
            r.reads R (build es) (r.get m) v
                (property-Rows r.key given ∙ ap ok (ap (λ f. f.0.3) fits))
                (optional_property-Rows r.key given ∙ ap (λ f. f.0.3) fits),
            ◌>>=◌,
          )
          (read_all-fill R es given rs (r.put s (r.norm (r.get m))) valid (ap (λ f. f.1) fits))

    pub convert_all-fill :
        (rs : List (Row w rt M P)) (s : M)
        → IsValidAll rs m
        → Fits cs embed m values rs s
        → convert_all rs (embed m) s ≡ fill rs m s
    convert_all-fill [] s valid fits = refl
    convert_all-fill (r ∷ rs) s (v, valid) fits =
        ap (λ a. convert_all rs (embed m) (r.put s a))
          (ap r.convert (ap (λ f. f.0.4) fits) ∙ r.convert-embed (r.get m) v)
        ∙ convert_all-fill rs (r.put s (r.norm (r.get m))) valid (ap (λ f. f.1) fits)

  abbrev pub cases_all : List (Row w rt M P) → List (Case M)
  cases_all [] = []
  cases_all (r ∷ rs) = r.accepting ∷ cases_all rs

  pub cases_all-Forward : (rs : List (Row w rt M P)) → All ForwardCase (cases_all rs)
  cases_all-Forward [] = tt
  cases_all-Forward (r ∷ rs) = (r.forward, cases_all-Forward rs)

  -- The functions of a message, made from its rows.
  abbrev pub fns_of : List (Row w rt M P) → M → P → MessageFns M P
  fns_of rows base empty = record {
    encode = write_all rows;
    decode = decode_with w (cases_all rows) base;
    from_json = λ o. read_all rows o base;
    to_json = λ m. build (entries_all rows m);
    create = λ object. convert_all rows (or_else object empty) base;
    from_partial = λ p. convert_all rows p base;
  }

  -- A message whose functions are those of its rows, which fit together and fill `normal`.
  abbrev pub OfRows : MessageFns M P → (M → P) → (M → M) → List (Row w rt M P) → M → P → Type 0
  OfRows fns embed normal rows base empty =
      ◌≡◌ {A = MessageFns M P × ((m : M) → M × Found rows)}
        (fns, λ m. (normal m, found (cases_all rows) embed m (values_all rows m) rows base))
        (fns_of rows base empty, λ m. (fill rows m base, fitting m rows base))

  module _ (L : IsLawful w) (fns : MessageFns M P) (embed : M → P) (normal : M → M)
      (rows : List (Row w rt M P)) (base : M) (empty : P)
      (of_rows : OfRows fns embed normal rows base empty) (IsValid : M → Type 0)
      (valid : (m : M) → IsValid m → IsValidAll rows m) where
    fits : (m : M) → Fits (cases_all rows) embed m (values_all rows m) rows base
    fits m = ap (λ x. (x.1 m).1) of_rows

    filled : (m : M) → fill rows m base ≡ normal m
    filled m = ap (λ x. (x.1 m).0) (sym of_rows)

    same {κ} : {A : Type κ} (f : MessageFns M P → A) → f fns ≡ f (fns_of rows base empty)
    same f = ap (λ x. f x.0) of_rows

    decodes : (r : Reader) (n : Option ℕ) → fns.decode r n ≡ decode_with w (cases_all rows) base r n
    decodes r n = same (λ f. f.decode r n)

    pub message-CodedAs : (m : M) → IsValid m → CodedAs fns.encode fns.decode m (normal m)
    message-CodedAs m h =
        let e =
          fill-Encodes (cases_all rows) embed m (values_all rows m) rows base (valid m h)
            (fits m) in
        let c = Encodes-Coded w (cases_all rows) {encode = λ _. write_all rows m} m e in
        record {
          bytes = c.bytes;
          appends = λ writer. same (λ f. f.encode m writer) ∙ c.appends writer;
          embedded = λ p more.
              decodes _ _
              ∙ c.embedded p more
              ∙ ap (λ n. ok (n, reader_at (p + length c.bytes) more)) (filled m);
          whole =
              decodes _ _ ∙ c.whole ∙ ap (λ n. ok (n, reader_at (length c.bytes) [])) (filled m);
        }

    pub message-Ended :
        (r : Reader) (n : Option ℕ) → Ended (λ k. k ≤ length r.rest) (fns.decode r n)
    message-Ended r n =
        subst (Ended (λ k. k ≤ length r.rest)) (sym (decodes r n))
          (decode_with-Ended w L (cases_all rows) (cases_all-Forward rows) base r n)

    pub from_json-to_json :
        IsRuntime rt → (m : M) → IsValid m → fns.from_json (fns.to_json m) ≡ ok (normal m)
    from_json-to_json R m h =
        same (λ f. f.from_json (f.to_json m))
        ∙ read_all-fill (cases_all rows) embed m (values_all rows m) R (entries_all rows m)
            (entries-Rows (cases_all rows) embed m (values_all rows m) rows base (fits m)) rows base
            (valid m h) (fits m)
        ∙ ap ok (filled m)

    pub to_json-is_set : (m : M) → is_set (fns.to_json m) ≡ true
    unfolding is_set build
    to_json-is_set m = rw (same (λ f. f.to_json m)) refl

    pub from_partial-embed : (m : M) → IsValid m → fns.from_partial (embed m) ≡ normal m
    from_partial-embed m h =
        same (λ f. f.from_partial (embed m))
        ∙ convert_all-fill (cases_all rows) embed m (values_all rows m) rows base (valid m h)
            (fits m)
        ∙ filled m

    pub create-from_partial : (p : P) → fns.create (some p) ≡ fns.from_partial p
    unfolding or_else
    create-from_partial p = same (λ f. f.create (some p)) ∙ sym (same (λ f. f.from_partial p))

    abbrev pub rows-Message : Message rt M P
    rows-Message = record {
      fns = fns;
      embed = embed;
      normal = normal;
      IsValid = IsValid;
      coded = message-CodedAs;
      ends = message-Ended;
      json = from_json-to_json;
      set = to_json-is_set;
      partial = from_partial-embed;
      created = create-from_partial;
    }
