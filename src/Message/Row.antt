-- ===== src/Message/Row.antt =====
-- A field of a message as one row: its statement in each function of `MessageFns`, and how they fit.
use merkle_proof_service.Prelude.{
  ℕ, ◌≤◌, ◌≡◌, String, true, Option, some, List, [], ◌∷◌, ◌++◌, length,
}
use merkle_proof_service.Wire.Binary.{Wire, Writer, Reader, Outcome, ok}
use merkle_proof_service.Wire.Loop.{Case, Handler, switch}
use merkle_proof_service.Wire.Fields.{CodedAs, Encodes}
use merkle_proof_service.Wire.Ends.{Ended, ForwardCase}
use merkle_proof_service.Json.Value.{Value, property, optional_property, is_set, Runtime, IsRuntime}
use merkle_proof_service.Json.Convert.{Entries}
use merkle_proof_service.Json.Entries.{IsEntry}
use merkle_proof_service.Message.Fns.{MessageFns}

-- A field of the messages `M`, whose partial messages are `P`. `norm` is what is read of a value.
pub record Row (w : Wire) (rt : Runtime) (M P : Type 0) : Type 1 where
  pub A : Type 0
  pub PA : Type 0
  pub get : M → A
  pub put : M → A → M
  pub pget : P → PA
  pub default : A
  pub norm : A → A
  pub IsValid : A → Type 0
  pub tag : ℕ
  pub write : A → Writer → Writer
  pub handler : Handler M
  pub accepting : Case M
  pub key : String
  pub read : Value → Outcome A
  pub entry : A → Entries
  pub value : A → Value
  pub convert : PA → A
  pub embed : A → PA
  pub encodes :
      (cs : List (Case M))
      → switch tag cs ≡ some handler
      → (s : M) (a : A) → IsValid a
      → put s default ≡ s
      → Encodes w cs (write a) s (put s (norm a))
  pub forward : ForwardCase accepting
  pub is_entry : (a : A) → IsEntry key (value a) (entry a)
  pub reads :
      IsRuntime rt
      → (o : Value) (a : A) → IsValid a
      → property key o ≡ ok (value a)
      → optional_property key o ≡ value a
      → read o ≡ ok (norm a)
  pub convert-embed : (a : A) → IsValid a → convert (embed a) ≡ norm a

-- What messages of a type promise: a valid message is read as `normal` of it, from its bytes, its JSON
-- and its partial form, and every read of bytes ends.
pub record Message (rt : Runtime) (M P : Type 0) : Type 1 where
  pub fns : MessageFns M P
  pub embed : M → P
  pub normal : M → M
  pub IsValid : M → Type 0
  pub coded : (m : M) → IsValid m → CodedAs fns.encode fns.decode m (normal m)
  pub ends : (r : Reader) (n : Option ℕ) → Ended (λ k. k ≤ length r.rest) (fns.decode r n)
  pub json : IsRuntime rt → (m : M) → IsValid m → fns.from_json (fns.to_json m) ≡ ok (normal m)
  pub set : (m : M) → is_set (fns.to_json m) ≡ true
  pub partial : (m : M) → IsValid m → fns.from_partial (embed m) ≡ normal m
  pub created : (p : P) → fns.create (some p) ≡ fns.from_partial p

-- message.f = v; for a field that may be `undefined`, and message.f.push(v);
abbrev pub store : {M A : Type 0} → (M → Option A → M) → M → A → M
store set m v = set m (some v)

abbrev pub push : {M A : Type 0} → (M → List A) → (M → List A → M) → M → A → M
push get set m v = set m (get m ++ v ∷ [])
