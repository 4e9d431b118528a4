-- ===== src/Tree/Result.antt =====
-- Go's (value, error) pairs. A wrapped error (`fmt.Errorf("…: %w", err)`) is the error that it wraps.
use merkle_proof_service.Prelude.{◌≡◌, refl}

pub data Error : Type 0 where
  not_found : Error
  invalid_level : Error
  invalid_depth : Error
  invalid_hash : Error
  cancelled : Error
  storage_failed : Error
  no_empty_leaf : Error
  panic : Error

pub data Result {ℓ} (A : Type ℓ) : Type ℓ where
  ok : A → Result A
  err : Error → Result A

infixl 5 ◌>>=◌
abbrev pub ◌>>=◌ {ℓ κ} : {A : Type ℓ} {B : Type κ} → Result A → (A → Result B) → Result B
ok a >>= f = f a
err e >>= f = err e

pub >>=-eq-ok {ℓ κ} :
    {A : Type ℓ} {B : Type κ} (m : Result A) (f : A → Result B) (b : B)
    → (m >>= f) ≡ ok b
    → (a : A) × (m ≡ ok a) × (f a ≡ ok b)
>>=-eq-ok (ok a) f b h = (a, refl, h)
>>=-eq-ok (err e) f b h = cc

pub ok_injective {ℓ} : {A : Type ℓ} {a b : A} → ok a ≡ ok b → a ≡ b
ok_injective h = cc
