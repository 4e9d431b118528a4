-- ===== src/Message/Fns.antt =====
-- interface MessageFns<T>: `P` is DeepPartial<T>.
use merkle_proof_service.Prelude.{ℕ, ◌+◌, ◌≡◌, Option, none, some, [], ◌++◌, length}
use merkle_proof_service.Wire.Binary.{Bytes, Outcome, ok, Writer, reader_at}
use merkle_proof_service.Wire.Loop.{Decoder}
use merkle_proof_service.Json.Value.{Value}

pub record MessageFns {ℓ} (T P : Type ℓ) : Type ℓ where
  pub encode : T → Writer → Writer
  pub decode : Decoder T
  pub from_json : Value → Outcome T
  pub to_json : T → Value
  pub create : Option P → T
  pub from_partial : P → T

-- The message is read as `n` from each of its encodings. `embed` reads a message as a partial one.
pub record IsReadAs {ℓ} {T P : Type ℓ} (fns : MessageFns T P) (embed : T → P) (m n : T)
    : Type ℓ where
  -- The writer keeps what it holds.
  pub appends : (writer : Writer) → fns.encode m writer ≡ writer ++ fns.encode m []
  -- The bytes are read back as a whole buffer, and inside a longer one.
  pub buffer :
      fns.decode (reader_at 0 (fns.encode m [])) none
      ≡ ok (n, reader_at (length (fns.encode m [])) [])
  pub inside :
      (p : ℕ) (more : Bytes)
      → fns.decode (reader_at p (fns.encode m [] ++ more)) (some (length (fns.encode m [])))
        ≡ ok (n, reader_at (p + length (fns.encode m [])) more)
  pub json : fns.from_json (fns.to_json m) ≡ ok n
  pub partial : fns.from_partial (embed m) ≡ n
  pub created : fns.create (some (embed m)) ≡ n

-- The message survives each of its encodings.
abbrev pub IsFaithful {ℓ} : {T P : Type ℓ} → MessageFns T P → (T → P) → T → Type ℓ
IsFaithful fns embed m = IsReadAs fns embed m m
