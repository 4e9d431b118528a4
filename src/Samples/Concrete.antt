-- ===== src/Samples/Concrete.antt =====
-- A wire and a runtime that meet the hypotheses: numbers as varints, and each code point of a text as
-- one item, which is its byte if it is ASCII.
use merkle_proof_service.Prelude.{
  ℕ, ℤ, pos, negsuc, zero, suc, ◌+◌, ◌*◌, ◌/◌, ◌%◌, List, ◌≤◌, ◌<◌, ◌≡◌, refl, ap, String, Bool,
  true, false, Option, none, some, [], ◌∷◌, ◌++◌, append_assoc, arith, inl, inr, not, ◌==◌,
  if◌then◌else◌, Bool-cases, Option-cases, length,
}
use merkle_proof_service.Wire.Binary.{Bytes, Wire, IsLawful, Outcome, ok, throw}
use merkle_proof_service.Json.Value.{
  Value, undefined, null, flag, number, negative, integer, string, Runtime, IsRuntime,
}
use merkle_proof_service.Samples.Text.{codes, of_codes, of_codes-codes}
use merkle_proof_service.Samples.Unary.{unary_text, unary_numbers, unary_numbers-unary_text}
use merkle_proof_service.Samples.Varint.{
  put_varint, get_varint, get_varint-put_varint, get_varint_takes,
}

unfoldable pub split : ℕ → Bytes → Option (Bytes × Bytes)
split zero bs = some ([], bs)
split (suc n) [] = none
split (suc n) (b ∷ bs) = elim (split n bs) [ none ↦ none | some (xs, ys) ↦ some (b ∷ xs, ys) ]

split-append : (xs ys : Bytes) → split (length xs) (xs ++ ys) ≡ some (xs, ys)
unfolding split
split-append [] ys = refl
split-append (x ∷ xs) ys = rw (split-append xs ys, split) refl

split_takes : (n : ℕ) (bs xs ys : Bytes) → split n bs ≡ some (xs, ys) → length ys ≤ length bs
unfolding split
split_takes zero bs xs ys h = ground arith
split_takes (suc n) [] xs ys h = cc
split_takes (suc n) (b ∷ bs) xs ys h = elim (Option-cases (split n bs)) [
  | inl e ↦ ground arith
  | inr ((us, vs), e) ↦ ground (arith, split_takes n bs us vs e)
]

abbrev pub decode_text : Option (Bytes × Bytes) → Option (String × Bytes)
decode_text none = none
decode_text (some (xs, ys)) = elim (of_codes xs) [ none ↦ none | some s ↦ some (s, ys) ]

abbrev pub take_prefixed : Option (ℕ × Bytes) → Option (Bytes × Bytes)
take_prefixed none = none
take_prefixed (some (n, bs)) = split n bs

abbrev pub rest_of : {A : Type 0} → Option (A × Bytes) → Option Bytes
rest_of none = none
rest_of (some (_, bs)) = some bs

abbrev pub to_flag : Option (ℕ × Bytes) → Option (Bool × Bytes)
to_flag none = none
to_flag (some (n, bs)) = some (not (n == 0), bs)

unfoldable pub skip_bytes : ℕ → Bytes → Option Bytes
unfolding split
skip_bytes kind bs =
    if kind == 0
    then rest_of (get_varint bs)
    else if kind == 1
    then rest_of (split 8 bs)
    else if kind == 2
    then rest_of (take_prefixed (get_varint bs))
    else if kind == 5
    then rest_of (split 4 bs)
    else none

unfoldable pub prefixed : Bytes → Bytes
prefixed bs = put_varint (length bs) ++ bs

take_prefixed-prefixed :
    (xs more : Bytes) → take_prefixed (get_varint (prefixed xs ++ more)) ≡ some (xs, more)
unfolding prefixed
take_prefixed-prefixed xs more =
    rw (append_assoc, get_varint-put_varint (length xs) (xs ++ more)) (split-append xs more)

take_prefixed_takes :
    (bs xs ys : Bytes) → take_prefixed (get_varint bs) ≡ some (xs, ys) → length ys ≤ length bs
take_prefixed_takes bs xs ys h = elim (Option-cases (get_varint bs)) [
  | inl e ↦ ground arith
  | inr ((n, r), e) ↦
      omega (arith, get_varint_takes bs n r e, split_takes n r xs ys (rw (e, take_prefixed) at h))
]

-- Integers by their distance from 0, the sign in the lowest bit.
unfoldable pub put_zigzag : ℤ → Bytes
put_zigzag (pos n) = put_varint (2 * n)
put_zigzag (negsuc n) = put_varint (2 * n + 1)

abbrev unzigzag : Option (ℕ × Bytes) → Option (ℤ × Bytes)
unzigzag none = none
unzigzag (some (n, bs)) = some (if n % 2 == 0 then pos (n / 2) else negsuc (n / 2), bs)

unfoldable pub get_zigzag : Bytes → Option (ℤ × Bytes)
get_zigzag bs = unzigzag (get_varint bs)

get_zigzag-put_zigzag : (z : ℤ) (more : Bytes) → get_zigzag (put_zigzag z ++ more) ≡ some (z, more)
unfolding get_zigzag put_zigzag
get_zigzag-put_zigzag (pos n) more = rw (get_varint-put_varint (2 * n) more) (even n)
  where
    even : (m : ℕ) → unzigzag (some (2 * m, more)) ≡ some (pos m, more)
    even m = ground arith
get_zigzag-put_zigzag (negsuc n) more = rw (get_varint-put_varint (2 * n + 1) more) (odd n)
  where
    odd : (m : ℕ) → unzigzag (some (2 * m + 1, more)) ≡ some (negsuc m, more)
    odd m = ground arith

get_zigzag_takes :
    (bs : Bytes) (z : ℤ) (rest : Bytes) → get_zigzag bs ≡ some (z, rest) → length rest < length bs
unfolding get_zigzag
get_zigzag_takes bs z rest h = elim (Option-cases (get_varint bs)) [
  | inl e ↦ ground arith
  | inr ((n, r), e) ↦ ground (arith, get_varint_takes bs n r e)
]

get_zigzag_le :
    (bs : Bytes) (z : ℤ) (rest : Bytes) → get_zigzag bs ≡ some (z, rest) → length rest ≤ length bs
get_zigzag_le bs z rest h = omega (arith, get_zigzag_takes bs z rest h)

get_varint_le :
    (bs : Bytes) (n : ℕ) (rest : Bytes) → get_varint bs ≡ some (n, rest) → length rest ≤ length bs
get_varint_le bs n rest h = omega (arith, get_varint_takes bs n rest h)

abbrev pub sample_wire : Wire
sample_wire = record {
  put_uint32 = put_varint;
  put_string = λ s. prefixed (codes s);
  put_bool = λ b. put_varint (if b then 1 else 0);
  delimit = prefixed;
  get_uint32 = get_varint;
  get_string = λ bs. decode_text (take_prefixed (get_varint bs));
  get_bool = λ bs. to_flag (get_varint bs);
  put_int32 = put_zigzag;
  put_uint64 = put_varint;
  put_int64 = put_zigzag;
  put_double = put_zigzag;
  put_bytes = prefixed;
  get_int32 = get_zigzag;
  get_uint64 = get_varint;
  get_int64 = get_zigzag;
  get_double = get_zigzag;
  get_bytes = λ bs. take_prefixed (get_varint bs);
  skip_field = skip_bytes;
}

none_text :
    (s : String) (rest : Bytes) → ¬ (◌≡◌ {A = Option (String × Bytes)} none (some (s, rest)))
none_text s rest h = cc

some_text :
    (xs ys : Bytes) (s : String) (rest : Bytes)
    → decode_text (some (xs, ys)) ≡ some (s, rest)
    → ys ≡ rest
some_text xs ys s rest h = ground arith

get_bool_shorter :
    (bs : Bytes) (b : Bool) (rest : Bytes)
    → sample_wire.get_bool bs ≡ some (b, rest)
    → length rest ≤ length bs
get_bool_shorter bs b rest h = elim (Option-cases (get_varint bs)) [
  | inl e ↦ ground arith
  | inr ((n, r), e) ↦ ground (arith, get_varint_takes bs n r e)
]

rest_of_shorter :
    {A : Type 0} (o : Option (A × Bytes)) (n : ℕ) (rest : Bytes)
    → ((a : A) (r : Bytes) → o ≡ some (a, r) → length r ≤ n)
    → rest_of o ≡ some rest
    → length rest ≤ n
rest_of_shorter none n rest f h = cc
rest_of_shorter (some (a, r)) n rest f h = f a rest (ground arith)

skip_shorter : (k : ℕ) (bs rest : Bytes) → skip_bytes k bs ≡ some rest → length rest ≤ length bs
unfolding skip_bytes
skip_shorter k bs rest h = elim (Bool-cases (k == 0)) [
  | inl a ↦
      rest_of_shorter (get_varint bs) _ rest (λ n r e. omega (arith, get_varint_takes bs n r e))
        (rw a at h)
  | inr a ↦ elim (Bool-cases (k == 1)) [
    | inl b ↦ rest_of_shorter (split 8 bs) _ rest (split_takes 8 bs) (rw (a, b) at h)
    | inr b ↦ elim (Bool-cases (k == 2)) [
      | inl c ↦
          rest_of_shorter (take_prefixed (get_varint bs)) _ rest (take_prefixed_takes bs)
            (rw (a, b, c) at h)
      | inr c ↦ elim (Bool-cases (k == 5)) [
        | inl d ↦ rest_of_shorter (split 4 bs) _ rest (split_takes 4 bs) (rw (a, b, c, d) at h)
        | inr d ↦ cc (rw (a, b, c, d) at h)
      ]
    ]
  ]
]

get_string_shorter :
    (bs : Bytes) (s : String) (rest : Bytes)
    → sample_wire.get_string bs ≡ some (s, rest)
    → length rest ≤ length bs
get_string_shorter bs s rest h = elim (Option-cases (take_prefixed (get_varint bs))) [
  | inl e ↦ absurd (none_text s rest (rw (e, decode_text) at h))
  | inr ((xs, ys), e) ↦
      let e' = some_text xs ys s rest (rw (e, decode_text) at h) in
      omega (arith, take_prefixed_takes bs xs ys e, ap length e')
]

get-put_flag :
    (b : Bool) (more : Bytes)
    → to_flag (get_varint (put_varint (if b then 1 else 0) ++ more)) ≡ some (b, more)
get-put_flag true more = rw (get_varint-put_varint 1 more) refl
get-put_flag false more = rw (get_varint-put_varint 0 more) refl

pub sample_wire-IsLawful : IsLawful sample_wire
sample_wire-IsLawful = record {
  get-put_uint32 = λ n more h. get_varint-put_varint n more;
  get-put_string = λ s more.
      rw (take_prefixed-prefixed (codes s) more, decode_text) (rw (of_codes-codes s) refl);
  get-put_bool = get-put_flag;
  delimit_lem = λ b. unfold prefixed in refl;
  get_uint32_takes = get_varint_takes;
  get_string_takes = get_string_shorter;
  get_bool_takes = get_bool_shorter;
  get-put_int32 = λ z more h. get_zigzag-put_zigzag z more;
  get-put_uint64 = λ n more h. get_varint-put_varint n more;
  get-put_int64 = λ z more h. get_zigzag-put_zigzag z more;
  get-put_double = λ z more h. get_zigzag-put_zigzag z more;
  get-put_bytes = take_prefixed-prefixed;
  get_int32_takes = get_zigzag_takes;
  get_uint64_takes = get_varint_le;
  get_int64_takes = get_zigzag_le;
  get_double_takes = get_zigzag_le;
  get_bytes_takes = take_prefixed_takes;
  skip_takes = skip_shorter;
}

abbrev of_unary : Value → Outcome (List ℕ)
of_unary (string s) = ok (unary_numbers s)
of_unary other = throw

abbrev pub sample_runtime : Runtime
sample_runtime = record {
  to_string = elim [ undefined ↦ "undefined" | null ↦ "null" | string s ↦ s | _ ↦ "" ];
  to_number = elim [ number n ↦ n | flag true ↦ 1 | _ ↦ 0 ];
  to_integer = elim [ number n ↦ pos n | negative n ↦ negsuc n | flag true ↦ pos 1 | _ ↦ pos 0 ];
  has_buffer = true;
  from_buffer = of_unary;
  buffer_text = unary_text;
  atob = of_unary;
  btoa = unary_text;
}

to_integer-integer : (z : ℤ) → sample_runtime.to_integer (integer z) ≡ z
to_integer-integer (pos n) = refl
to_integer-integer (negsuc n) = refl

pub sample_runtime-IsRuntime : IsRuntime sample_runtime
sample_runtime-IsRuntime = record {
  to_string-string = λ s. refl;
  to_number-number = λ n. refl;
  to_integer-integer = to_integer-integer;
  from_buffer-text = λ bs h. ap ok (unary_numbers-unary_text bs);
  atob-btoa = λ bs h. ap ok (unary_numbers-unary_text bs);
}
