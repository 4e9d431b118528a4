-- ===== src/Wire/Binary.antt =====
-- BinaryReader and BinaryWriter of @bufbuild/protobuf/wire, as gen/ts uses them.
-- The package is third-party code: its encodings of single values are the parameter `Wire`, and
-- what the generated code relies on is `IsLawful`.
use merkle_proof_service.Prelude.{
  ℕ, ℤ, IsWithin, ◌+◌, ◌-◌, ◌^◌, ◌≤◌, ◌<◌, ◌≡◌, String, Bool, Option, none, some, List, [], ◌++◌,
  length,
}

abbrev pub Bytes : Type 0
Bytes = List ℕ

-- What a call of generated code ends with. `stuck` is no outcome of the program: the model's fuel
-- ran out.
pub data Outcome {ℓ} (A : Type ℓ) : Type ℓ where
  ok : A → Outcome A
  throw : Outcome A
  stuck : Outcome A

infixl 5 ◌>>=◌
abbrev pub ◌>>=◌ {ℓ κ} : {A : Type ℓ} {B : Type κ} → Outcome A → (A → Outcome B) → Outcome B
ok a >>= f = f a
throw >>= f = throw
stuck >>= f = stuck

-- How single values are written and read. A double is one that is an integer. A read takes the bytes
-- from the reader's position on, and `none` is an exception.
pub record Wire : Type 0 where
  pub put_uint32 : ℕ → Bytes
  pub put_string : String → Bytes
  pub put_bool : Bool → Bytes
  pub delimit : Bytes → Bytes
  pub get_uint32 : Bytes → Option (ℕ × Bytes)
  pub get_string : Bytes → Option (String × Bytes)
  pub get_bool : Bytes → Option (Bool × Bytes)
  pub put_int32 : ℤ → Bytes
  pub put_uint64 : ℕ → Bytes
  pub put_int64 : ℤ → Bytes
  pub put_double : ℤ → Bytes
  pub put_bytes : Bytes → Bytes
  pub get_int32 : Bytes → Option (ℤ × Bytes)
  pub get_uint64 : Bytes → Option (ℕ × Bytes)
  pub get_int64 : Bytes → Option (ℤ × Bytes)
  pub get_double : Bytes → Option (ℤ × Bytes)
  pub get_bytes : Bytes → Option (Bytes × Bytes)
  pub skip_field : ℕ → Bytes → Option Bytes

-- Reads take back what was written and leave what follows; `join` writes the length and the bytes
-- of the fork; no read moves backwards, and a number takes a byte at least.
pub record IsLawful (w : Wire) : Type 0 where
  pub get-put_uint32 :
      (n : ℕ) (more : Bytes) → n < 2 ^ 32 → w.get_uint32 (w.put_uint32 n ++ more) ≡ some (n, more)
  pub get-put_string :
      (s : String) (more : Bytes) → w.get_string (w.put_string s ++ more) ≡ some (s, more)
  pub get-put_bool : (b : Bool) (more : Bytes) → w.get_bool (w.put_bool b ++ more) ≡ some (b, more)
  pub get-put_int32 :
      (z : ℤ) (more : Bytes)
      → IsWithin (2 ^ 31) z
      → w.get_int32 (w.put_int32 z ++ more) ≡ some (z, more)
  pub get-put_uint64 :
      (n : ℕ) (more : Bytes) → n < 2 ^ 64 → w.get_uint64 (w.put_uint64 n ++ more) ≡ some (n, more)
  pub get-put_int64 :
      (z : ℤ) (more : Bytes)
      → IsWithin (2 ^ 63) z
      → w.get_int64 (w.put_int64 z ++ more) ≡ some (z, more)
  pub get-put_double :
      (z : ℤ) (more : Bytes)
      → IsWithin (2 ^ 53) z
      → w.get_double (w.put_double z ++ more) ≡ some (z, more)
  pub get-put_bytes : (b more : Bytes) → w.get_bytes (w.put_bytes b ++ more) ≡ some (b, more)
  pub delimit_lem : (b : Bytes) → w.delimit b ≡ w.put_uint32 (length b) ++ b
  pub get_uint32_takes :
      (b : Bytes) (n : ℕ) (rest : Bytes) → w.get_uint32 b ≡ some (n, rest) → length rest < length b
  pub get_string_takes :
      (b : Bytes) (s : String) (rest : Bytes)
      → w.get_string b ≡ some (s, rest)
      → length rest ≤ length b
  pub get_bool_takes :
      (b : Bytes) (x : Bool) (rest : Bytes) → w.get_bool b ≡ some (x, rest) → length rest ≤ length b
  pub get_int32_takes :
      (b : Bytes) (z : ℤ) (rest : Bytes) → w.get_int32 b ≡ some (z, rest) → length rest < length b
  pub get_uint64_takes :
      (b : Bytes) (n : ℕ) (rest : Bytes) → w.get_uint64 b ≡ some (n, rest) → length rest ≤ length b
  pub get_int64_takes :
      (b : Bytes) (z : ℤ) (rest : Bytes) → w.get_int64 b ≡ some (z, rest) → length rest ≤ length b
  pub get_double_takes :
      (b : Bytes) (z : ℤ) (rest : Bytes) → w.get_double b ≡ some (z, rest) → length rest ≤ length b
  pub get_bytes_takes : (b x rest : Bytes) → w.get_bytes b ≡ some (x, rest) → length rest ≤ length b
  pub skip_takes : (k : ℕ) (b rest : Bytes) → w.skip_field k b ≡ some rest → length rest ≤ length b

-- A reader: its position, and the bytes from there to the end of its buffer.
pub record Reader : Type 0 where
  pub pos : ℕ
  pub rest : Bytes

abbrev pub reader_at : ℕ → Bytes → Reader
reader_at p b = record { pos = p; rest = b }

abbrev pub len : Reader → ℕ
len r = r.pos + length r.rest

-- One read: the position moves on by the bytes taken.
unfoldable pub read {ℓ} :
    {A : Type ℓ} → (Bytes → Option (A × Bytes)) → Reader → Outcome (A × Reader)
read get r = elim (get r.rest) [
  | none ↦ throw
  | some (a, b) ↦ ok (a, reader_at (r.pos + (length r.rest - length b)) b)
]

unfoldable pub skip : Wire → ℕ → Reader → Outcome Reader
skip w k r = elim (w.skip_field k r.rest) [
  | none ↦ throw
  | some b ↦ ok (reader_at (r.pos + (length r.rest - length b)) b)
]

-- A writer is the bytes written so far.
abbrev pub Writer : Type 0
Writer = Bytes

module _ (w : Wire) where
  unfoldable pub uint32 : ℕ → Writer → Writer
  uint32 n writer = writer ++ w.put_uint32 n

  unfoldable pub string : String → Writer → Writer
  string s writer = writer ++ w.put_string s

  unfoldable pub bool : Bool → Writer → Writer
  bool b writer = writer ++ w.put_bool b

  -- `encode(message, writer.fork()).join()`: the fork begins empty.
  unfoldable pub fork_join : (Writer → Writer) → Writer → Writer
  fork_join encode writer = writer ++ w.delimit (encode [])
