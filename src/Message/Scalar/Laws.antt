-- ===== src/Message/Scalar/Laws.antt =====
-- The single values of gen/ts/google/protobuf/descriptor.ts: what is written and what is read.
use text.Mathlib.TextEquality.{eq_iff}
use merkle_proof_service.Prelude.{
  ℕ, suc, ℤ, pos, negsuc, is_zero, IsWithin, ◌-◌, ◌%◌, ◌^◌, ◌≤◌, ◌<◌, ◌≡◌, refl, sym, ap, ◌∙◌, Bool,
  true, false, not, Option, none, some, [], ◌∷◌, ◌++◌, map, inl, inr, arith, ltb, ◌==◌, ==→eq,
  if◌then◌else◌, Bool-cases, length, All,
}
use merkle_proof_service.Wire.Binary.{Bytes, Wire, IsLawful, ok, ◌>>=◌}
use merkle_proof_service.Json.Value.{
  negative, string, integer, is_set, to_boolean, Runtime, IsRuntime,
}
use merkle_proof_service.Json.Enum.{EnumFns, IsEnum}
use merkle_proof_service.Message.Scalar.{
  Scalar, is_number, long_to_number, long_to_integer, bytes_from_base64, base64_from_bytes,
  string_type, bool_type, int32_type, uint64_type, int64_type, double_type, bytes_type,
  number_of_member, IsMember, member_type,
}

-- What the fields rely on of a type: the values that `IsValid` holds of are read back, from bytes and
-- from JSON.
pub record IsScalar {A : Type 0} (s : Scalar A) (IsValid : A → Type 0) : Type 0 where
  pub default_only : (v : A) → s.is_default v ≡ true → v ≡ s.default
  pub get-put : (v : A) (more : Bytes) → IsValid v → s.get (s.put v ++ more) ≡ some (v, more)
  pub takes : (b : Bytes) (v : A) (rest : Bytes) → s.get b ≡ some (v, rest) → length rest ≤ length b
  pub json : (v : A) → IsValid v → s.of_json (s.to_json v) ≡ ok v
  pub set : (v : A) → is_set (s.to_json v) ≡ true

is_zero→eq : (z : ℤ) → is_zero z ≡ true → z ≡ pos 0
is_zero→eq (pos n) h = ap pos (==→eq n 0 h)
is_zero→eq (negsuc n) h = cc

is_number→eq : (d : ℕ) (z : ℤ) → is_number d z ≡ true → z ≡ pos d
is_number→eq d (pos n) h = ap pos (==→eq n d h)
is_number→eq d (negsuc n) h = cc

integer-set : (z : ℤ) → is_set (integer z) ≡ true
unfolding is_set
integer-set (pos n) = refl
integer-set (negsuc n) = refl

-- The numbers of 53 bits that longToNumber lets through.
abbrev pub IsSafe : ℤ → Type 0
IsSafe (pos n) = n < 2 ^ 53
IsSafe (negsuc n) = suc n < 2 ^ 53

long_to_number-small :
    (n : ℕ) (rest : Bytes) → n < 2 ^ 53 → long_to_number (some (n, rest)) ≡ some (n, rest)
unfolding long_to_number
long_to_number-small n rest h = ground (arith, h)

long_to_integer-safe :
    (z : ℤ) (rest : Bytes) → IsSafe z → long_to_integer (some (z, rest)) ≡ some (z, rest)
unfolding long_to_integer
long_to_integer-safe (pos n) rest h = ground (arith, h)
long_to_integer-safe (negsuc n) rest h = ground (arith, h)

long_to_number-takes :
    (o : Option (ℕ × Bytes)) (n : ℕ) (rest : Bytes)
    → long_to_number o ≡ some (n, rest)
    → o ≡ some (n, rest)
unfolding long_to_number
long_to_number-takes none n rest h = cc
long_to_number-takes (some (m, bs)) n rest h = elim (Bool-cases (ltb (2 ^ 53 - 1) m)) [
  | inl e ↦ cc (rw e at h)
  | inr e ↦ rw e at h
]

long_to_integer-takes :
    (o : Option (ℤ × Bytes)) (z : ℤ) (rest : Bytes)
    → long_to_integer o ≡ some (z, rest)
    → o ≡ some (z, rest)
unfolding long_to_integer
long_to_integer-takes none z rest h = cc
long_to_integer-takes (some (pos m, bs)) z rest h = elim (Bool-cases (ltb (2 ^ 53 - 1) m)) [
  | inl e ↦ cc (rw e at h)
  | inr e ↦ rw e at h
]
long_to_integer-takes (some (negsuc m, bs)) z rest h = elim (Bool-cases (ltb (2 ^ 53 - 2) m)) [
  | inl e ↦ cc (rw e at h)
  | inr e ↦ rw e at h
]

low_bytes : (bs : Bytes) → All (λ b. b < 256) bs → map (λ c. c % 256) bs ≡ bs
low_bytes [] h = refl
low_bytes (b ∷ bs) (h, hs) = rw (let e : b % 256 ≡ b = omega arith in e, low_bytes bs hs) refl

module _ (rt : Runtime) (R : IsRuntime rt) where
  pub bytes_from_base64-base64_from_bytes :
      (bs : Bytes)
      → All (λ b. b < 256) bs
      → bytes_from_base64 rt (string (base64_from_bytes rt bs)) ≡ ok bs
  unfolding bytes_from_base64 base64_from_bytes
  bytes_from_base64-base64_from_bytes bs h = elim (Bool-cases rt.has_buffer) [
    | inl e ↦ rw e (R.from_buffer-text bs h)
    | inr e ↦ rw e (rw (R.atob-btoa bs h, ◌>>=◌) (ap ok (low_bytes bs h)))
  ]

module _ (w : Wire) (L : IsLawful w) (rt : Runtime) (R : IsRuntime rt) where
  pub string_type-IsScalar : IsScalar (string_type w rt) (λ v. Unit {0})
  unfolding is_set
  string_type-IsScalar = record {
    default_only = λ v e. (eq_iff v "").0 e;
    get-put = λ v more _. L.get-put_string v more;
    takes = L.get_string_takes;
    json = λ v _. ap ok (R.to_string-string v);
    set = λ v. refl;
  }

  bool_default : (d v : Bool) → (if d then v else not v) ≡ true → v ≡ d
  bool_default true v h = h
  bool_default false true h = cc
  bool_default false false h = refl

  pub bool_type-IsScalar : (d : Bool) → IsScalar (bool_type w rt d) (λ v. Unit {0})
  unfolding is_set to_boolean
  bool_type-IsScalar d = record {
    default_only = bool_default d;
    get-put = λ v more _. L.get-put_bool v more;
    takes = L.get_bool_takes;
    json = λ v _. refl;
    set = λ v. refl;
  }

  pub int32_type-IsScalar : IsScalar (int32_type w rt) (IsWithin (2 ^ 31))
  int32_type-IsScalar = record {
    default_only = is_zero→eq;
    get-put = L.get-put_int32;
    takes = λ b z rest e. omega (arith, L.get_int32_takes b z rest e);
    json = λ v _. ap ok (R.to_integer-integer v);
    set = integer-set;
  }

  pub double_type-IsScalar : IsScalar (double_type w rt) (IsWithin (2 ^ 53))
  double_type-IsScalar = record {
    default_only = is_zero→eq;
    get-put = L.get-put_double;
    takes = L.get_double_takes;
    json = λ v _. ap ok (R.to_integer-integer v);
    set = integer-set;
  }

  pub bytes_type-IsScalar : IsScalar (bytes_type w rt) (All (λ b. b < 256))
  unfolding is_set
  bytes_type-IsScalar = record {
    default_only = no_bytes;
    get-put = λ v more _. L.get-put_bytes v more;
    takes = L.get_bytes_takes;
    json = bytes_from_base64-base64_from_bytes rt R;
    set = λ v. refl;
  }
    where
      no_bytes : (v : Bytes) → (length v == 0) ≡ true → v ≡ []
      no_bytes [] h = refl
      no_bytes (b ∷ bs) h = absurd (omega (arith, ==→eq (length (b ∷ bs)) 0 h))

  pub uint64_type-IsScalar : IsScalar (uint64_type w rt) (λ n. n < 2 ^ 53)
  unfolding is_set
  uint64_type-IsScalar = record {
    default_only = λ v e. ==→eq v 0 e;
    get-put = λ v more h.
        ap long_to_number (L.get-put_uint64 v more (omega arith)) ∙ long_to_number-small v more h;
    takes =
        λ b v rest e. L.get_uint64_takes b v rest (long_to_number-takes (w.get_uint64 b) v rest e);
    json = λ v _. ap ok (R.to_number-number v);
    set = λ v. refl;
  }

  safe-IsWithin : (z : ℤ) → IsSafe z → IsWithin (2 ^ 63) z
  safe-IsWithin (pos n) h = omega arith
  safe-IsWithin (negsuc n) h = omega arith

  pub int64_type-IsScalar : IsScalar (int64_type w rt) IsSafe
  int64_type-IsScalar = record {
    default_only = is_zero→eq;
    get-put = λ v more h.
        ap long_to_integer (L.get-put_int64 v more (safe-IsWithin v h))
        ∙ long_to_integer-safe v more h;
    takes =
        λ b v rest e. L.get_int64_takes b v rest (long_to_integer-takes (w.get_int64 b) v rest e);
    json = λ v _. ap ok (R.to_integer-integer v);
    set = integer-set;
  }

  module _ {E : Type 0} (unrecognized : E) (fns : EnumFns E)
      (enum : IsEnum unrecognized fns.code fns.from_json fns.to_json) where
    numbered : (e : E) → fns.from_json (integer (number_of_member fns e)) ≡ e
    numbered e = elim (enum.by_number e) [
      | inr (n, c, back) ↦ rw (c, integer) back
      | inl (c, same) ↦
          rw (c, integer)
            (elim (enum.only (negative 0)) [
              | inr other ↦ other ∙ sym same
              | inl (inl named) ↦ cc
              | inl (inr (n, _, number_of)) ↦ cc
            ])
    ]

    pub member_type-IsScalar : (d : ℕ) → IsScalar (member_type w rt fns d) (IsMember fns)
    unfolding is_set
    member_type-IsScalar d = record {
      default_only = is_number→eq d;
      get-put = λ v more h. L.get-put_int32 v more h.0;
      takes = λ b z rest e. omega (arith, L.get_int32_takes b z rest e);
      json = λ v (_, e, h). ap ok (
          ap
            (λ z.
              number_of_member fns
                (fns.from_json (string (fns.to_json (fns.from_json (integer z))))))
            (sym h)
          ∙ ap (λ x. number_of_member fns (fns.from_json (string (fns.to_json x)))) (numbered e)
          ∙ ap (number_of_member fns) (enum.by_name e)
          ∙ h);
      set = λ v. refl;
    }
