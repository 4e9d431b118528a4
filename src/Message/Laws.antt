-- ===== src/Message/Laws.antt =====
-- A message is faithful if its bytes, its JSON and its partial form are.
use merkle_proof_service.Prelude.{◌≡◌, sym, ◌∙◌, ap, some, [], ◌++◌}
use merkle_proof_service.Wire.Binary.{ok}
use merkle_proof_service.Wire.Fields.{CodedAs}
use merkle_proof_service.Message.Fns.{MessageFns, IsReadAs}
use merkle_proof_service.Json.Value.{Runtime, IsRuntime}
use merkle_proof_service.Message.Row.{Message}

module _ {ℓ} {T P : Type ℓ} (fns : MessageFns T P) (embed : T → P) (m : T) {n : T} where
  pub IsFaithful-Coded :
      CodedAs fns.encode fns.decode m n
      → fns.from_json (fns.to_json m) ≡ ok n
      → fns.from_partial (embed m) ≡ n
      → fns.create (some (embed m)) ≡ n
      → IsReadAs fns embed m n
  IsFaithful-Coded c j q d = record {
    appends = λ writer. c.appends writer ∙ ap (◌++◌ writer) (sym bare);
    buffer = rw bare c.whole;
    inside = λ p more. rw bare (c.embedded p more);
    json = j;
    partial = q;
    created = d;
  }
    where
      bare : fns.encode m [] ≡ c.bytes
      bare = c.appends []

pub Message-IsReadAs :
    {rt : Runtime} {M P : Type 0}
    → IsRuntime rt
    → (N : Message rt M P) (m : M) → N.IsValid m
    → IsReadAs N.fns N.embed m (N.normal m)
Message-IsReadAs R N m valid =
    IsFaithful-Coded N.fns N.embed m (N.coded m valid) (N.json R m valid) (N.partial m valid)
      (N.created (N.embed m) ∙ N.partial m valid)
