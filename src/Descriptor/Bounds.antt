-- ===== src/Descriptor/Bounds.antt =====
-- The numbers that `decode` of UninterpretedOption, of gen/ts/google/protobuf/descriptor.ts, stores.
use merkle_proof_service.Prelude.{
  ℕ, ℤ, pos, negsuc, ◌-◌, ◌^◌, ◌<◌, ◌≡◌, subst, Option, none, some, inl, inr, arith, ltb,
  ltb_false→le, Bool-cases, AllOption,
}
use merkle_proof_service.Wire.Binary.{Bytes, Wire, Reader, ok}
use merkle_proof_service.Wire.Keeps.{
  Yields, Keeps, store-Keeps, on_message-Keeps, decode_with-Yields,
}
use merkle_proof_service.Json.Value.{Runtime}
use merkle_proof_service.Message.Scalar.{
  Scalar, long_to_number, long_to_integer, string_type, uint64_type, int64_type, double_type,
  bytes_type, on_scalar,
}
use merkle_proof_service.Message.Scalar.Laws.{IsSafe}
use merkle_proof_service.Descriptor.UninterpretedOption.{UninterpretedOption, base, cases, decode}
use merkle_proof_service.Descriptor.UninterpretedOptionNamePart

on_scalar-Keeps :
    {M : Type 0} (Q : M → Type 0) {A : Type 0} (s : Scalar A) (P : A → Type 0)
    → ((b : Bytes) (a : A) (rest : Bytes) → s.get b ≡ some (a, rest) → P a)
    → (put : M → A → M) → ((m : M) (a : A) → P a → Q m → Q (put m a))
    → Keeps Q (on_scalar s put)
unfolding on_scalar
on_scalar-Keeps Q s P bound put keeps = store-Keeps Q P s.get bound put keeps

long_to_number-bound :
    (o : Option (ℕ × Bytes)) (n : ℕ) (rest : Bytes) → long_to_number o ≡ some (n, rest) → n < 2 ^ 53
unfolding long_to_number
long_to_number-bound none n rest h = cc
long_to_number-bound (some (k, more)) n rest h = ground arith

long_to_integer-IsSafe :
    (o : Option (ℤ × Bytes)) (z : ℤ) (rest : Bytes) → long_to_integer o ≡ some (z, rest) → IsSafe z
unfolding long_to_integer
long_to_integer-IsSafe none z rest h = cc
long_to_integer-IsSafe (some (pos k, more)) z rest h = elim (Bool-cases (ltb (2 ^ 53 - 1) k)) [
  | inl e ↦ cc (rw e at h)
  | inr e ↦
      subst IsSafe (let same : pos k ≡ z = cc (rw e at h) in same)
        (omega (arith, ltb_false→le (2 ^ 53 - 1) k e))
]
long_to_integer-IsSafe (some (negsuc k, more)) z rest h = elim (Bool-cases (ltb (2 ^ 53 - 2) k)) [
  | inl e ↦ cc (rw e at h)
  | inr e ↦
      subst IsSafe (let same : negsuc k ≡ z = cc (rw e at h) in same)
        (omega (arith, ltb_false→le (2 ^ 53 - 2) k e))
]

-- The two integers are ones that a JavaScript number holds exactly.
abbrev pub HasSafeNumbers : UninterpretedOption → Type 0
HasSafeNumbers m =
    AllOption (λ n. n < 2 ^ 53) m.positive_int_value × AllOption IsSafe m.negative_int_value

decode-Yields :
    (w : Wire) (rt : Runtime) (r : Reader) (n : Option ℕ) → Yields HasSafeNumbers (decode w rt r n)
unfolding decode
decode-Yields w rt =
    decode_with-Yields HasSafeNumbers w (cases w rt)
      (
        on_message-Keeps HasSafeNumbers w (UninterpretedOptionNamePart.decode w rt) _ (λ m v q. q),
        (
          on_scalar-Keeps HasSafeNumbers (string_type w rt) (λ a. Unit) (λ b a rest e. tt) _
              (λ m a p q. q),
          (
            on_scalar-Keeps HasSafeNumbers (uint64_type w rt) (λ n. n < 2 ^ 53)
                (λ b a rest e. long_to_number-bound (w.get_uint64 b) a rest e) _
                (λ m a p q. (p, q.1)),
            (
              on_scalar-Keeps HasSafeNumbers (int64_type w rt) IsSafe
                  (λ b a rest e. long_to_integer-IsSafe (w.get_int64 b) a rest e) _
                  (λ m a p q. (q.0, p)),
              (
                on_scalar-Keeps HasSafeNumbers (double_type w rt) (λ a. Unit) (λ b a rest e. tt) _
                    (λ m a p q. q),
                (
                  on_scalar-Keeps HasSafeNumbers (bytes_type w rt) (λ a. Unit) (λ b a rest e. tt) _
                      (λ m a p q. q),
                  (
                    on_scalar-Keeps HasSafeNumbers (string_type w rt) (λ a. Unit) (λ b a rest e. tt)
                        _ (λ m a p q. q),
                    tt,
                  ),
                ),
              ),
            ),
          ),
        ),
      )
      base (omega arith, omega arith)

-- A message that `decode` of UninterpretedOption returns, on any input and over any wire, has numbers
-- in positiveIntValue and negativeIntValue whose distance from 0 is at most 2 ^ 53 - 1.
pub decode-HasSafeNumbers :
    (w : Wire) (rt : Runtime) (r : Reader) (n : Option ℕ) (m : UninterpretedOption) (left : Reader)
    → decode w rt r n ≡ ok (m, left)
    → HasSafeNumbers m
decode-HasSafeNumbers w rt r n m left h = subst (Yields HasSafeNumbers) h (decode-Yields w rt r n)
