-- ===== src/Message/Scalar.antt =====
-- The types of single values in gen/ts/google/protobuf/descriptor.ts, and the statements of a field
-- that holds one or `undefined`.
pub mod Laws
use text.Mathlib.Text.{◌==◌ as str_eq}
use merkle_proof_service.Prelude.{
  ℕ, ℤ, IsWithin, ◌≡◌, pos, negsuc, is_zero, ◌-◌, ◌%◌, ◌^◌, String, Bool, false, not, Option, none,
  some, List, [], ◌∷◌, ◌++◌, map, ltb, ◌==◌, if◌then◌else◌, length,
}
use merkle_proof_service.Wire.Binary.{
  Bytes, Wire, Reader, Writer, Outcome, ok, throw, ◌>>=◌, read, uint32,
}
use merkle_proof_service.Wire.Loop.{Handler}
use merkle_proof_service.Json.Value.{
  Value, flag, number, string, integer, property, is_set, to_boolean, Runtime,
}
use merkle_proof_service.Json.Convert.{Entries, or_else}
use merkle_proof_service.Json.Enum.{EnumFns}

-- How values of a type are written, read, taken from JSON and put into it; `is_default` is the test
-- against the default value.
pub record Scalar (A : Type 0) : Type 0 where
  pub default : A
  pub is_default : A → Bool
  pub put : A → Bytes
  pub get : Bytes → Option (A × Bytes)
  pub of_json : Value → Outcome A
  pub to_json : A → Value

-- The test of an integer against a natural number.
abbrev pub is_number : ℕ → ℤ → Bool
is_number d (pos n) = n == d
is_number d (negsuc n) = false

-- longToNumber: `none` is its exception; above 2 ^ 53 - 1 the rounding does not matter.
unfoldable pub long_to_number : Option (ℕ × Bytes) → Option (ℕ × Bytes)
long_to_number none = none
long_to_number (some (n, rest)) = if ltb (2 ^ 53 - 1) n then none else some (n, rest)

unfoldable pub long_to_integer : Option (ℤ × Bytes) → Option (ℤ × Bytes)
long_to_integer none = none
long_to_integer (some (pos n, rest)) = if ltb (2 ^ 53 - 1) n then none else some (pos n, rest)
long_to_integer (some (negsuc n, rest)) = if ltb (2 ^ 53 - 2) n then none else some (negsuc n, rest)

module _ (rt : Runtime) where
  -- bytesFromBase64, with Buffer or else by `atob` and a loop that stores char codes in bytes
  unfoldable pub bytes_from_base64 : Value → Outcome Bytes
  bytes_from_base64 b64 =
      if rt.has_buffer
      then rt.from_buffer b64
      else (rt.atob b64 >>= λ bin. ok (map (λ c. c % 256) bin))

  -- base64FromBytes
  unfoldable pub base64_from_bytes : Bytes → String
  base64_from_bytes arr = if rt.has_buffer then rt.buffer_text arr else rt.btoa arr

-- The number that a member of an enum is, -1 for UNRECOGNIZED; and the numbers of all members.
abbrev pub number_of_member : {E : Type 0} → EnumFns E → E → ℤ
number_of_member fns e = elim (fns.code e) [ none ↦ negsuc 0 | some n ↦ pos n ]

abbrev pub IsMember : {E : Type 0} → EnumFns E → ℤ → Type 0
IsMember {E} fns z = IsWithin (2 ^ 31) z × (e : E) × (number_of_member fns e ≡ z)

module _ (w : Wire) (rt : Runtime) where
  abbrev pub string_type : Scalar String
  string_type = record {
    default = "";
    is_default = λ v. str_eq v "";
    put = w.put_string;
    get = w.get_string;
    of_json = λ v. ok (rt.to_string v);
    to_json = string;
  }

  abbrev pub bool_type : Bool → Scalar Bool
  bool_type default = record {
    default = default;
    is_default = λ v. if default then v else not v;
    put = w.put_bool;
    get = w.get_bool;
    of_json = λ v. ok (to_boolean v);
    to_json = flag;
  }

  abbrev pub int32_type : Scalar ℤ
  int32_type = record {
    default = pos 0;
    is_default = is_zero;
    put = w.put_int32;
    get = w.get_int32;
    of_json = λ v. ok (rt.to_integer v);
    to_json = integer;
  }

  abbrev pub uint64_type : Scalar ℕ
  uint64_type = record {
    default = 0;
    is_default = λ v. v == 0;
    put = w.put_uint64;
    get = λ b. long_to_number (w.get_uint64 b);
    of_json = λ v. ok (rt.to_number v);
    to_json = number;
  }

  abbrev pub int64_type : Scalar ℤ
  int64_type = record {
    default = pos 0;
    is_default = is_zero;
    put = w.put_int64;
    get = λ b. long_to_integer (w.get_int64 b);
    of_json = λ v. ok (rt.to_integer v);
    to_json = integer;
  }

  abbrev pub double_type : Scalar ℤ
  double_type = record {
    default = pos 0;
    is_default = is_zero;
    put = w.put_double;
    get = w.get_double;
    of_json = λ v. ok (rt.to_integer v);
    to_json = integer;
  }

  abbrev pub bytes_type : Scalar Bytes
  bytes_type = record {
    default = [];
    is_default = λ v. length v == 0;
    put = w.put_bytes;
    get = w.get_bytes;
    of_json = bytes_from_base64 rt;
    to_json = λ v. string (base64_from_bytes rt v);
  }

  -- An enum with the default `pos d`: a number, that of a member or another; JSON has its name.
  module _ {E : Type 0} (fns : EnumFns E) where
    abbrev pub member_type : ℕ → Scalar ℤ
    member_type d = record {
      default = pos d;
      is_default = is_number d;
      put = w.put_int32;
      get = w.get_int32;
      of_json = λ v. ok (number_of_member fns (fns.from_json v));
      to_json = λ z. string (fns.to_json (fns.from_json (integer z)));
    }

module _ (w : Wire) {A : Type 0} (s : Scalar A) where
  -- if (v !== undefined && v !== default) { writer.uint32(tag).put(v); }
  unfoldable pub write_present : ℕ → Option A → Writer → Writer
  write_present tag none writer = writer
  write_present tag (some v) writer =
      if s.is_default v then writer else uint32 w tag writer ++ s.put v

module _ {A : Type 0} (s : Scalar A) where
  -- message.f = reader.get();
  unfoldable pub on_scalar {ℓ} : {M : Type ℓ} → (M → A → M) → Handler M
  on_scalar put m r = read s.get r >>= λ (v, r1). ok (put m v, r1)

  -- isSet(object.key) ? of_json(object.key) : default
  unfoldable pub present_of : String → Value → Outcome (Option A)
  present_of key o = property key o >>= λ v.
      let parsed : Outcome (Option A) = s.of_json v >>= λ a. ok (some a) in
      if is_set v then parsed else ok (some s.default)

  -- if (v !== undefined && v !== default) { obj.key = to_json(v); }
  unfoldable pub present_entry : String → Option A → Entries
  present_entry key none = []
  present_entry key (some v) = if s.is_default v then [] else (key, s.to_json v) ∷ []

-- object.key ?? default, where the field may be `undefined`
unfoldable pub or_present : {A : Type 0} → Option A → A → Option A
unfolding or_else
or_present object default = some (or_else object default)
