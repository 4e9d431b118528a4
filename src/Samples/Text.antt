-- ===== src/Samples/Text.antt =====
-- Characters from their numbers, and texts as lists of numbers.
use Prim.Native.Nat.{compare, Ordering}
use Prim.Native.Char.{Char, char, code, IsLt, IsScalar}
use text.Mathlib.TextEquality.{Char-path}
use merkle_proof_service.Prelude.{ℕ, String, ◌≡◌, refl, Option, none, some, List, [], ◌∷◌, ap}

abbrev BothLt : Ordering → Ordering → Type 0
BothLt Ordering.lt o = IsLt o
BothLt Ordering.eq _ = ⊥
BothLt Ordering.gt _ = ⊥

abbrev Scalar : Ordering → Ordering → Ordering → Type 0
Scalar Ordering.lt _ _ = Unit
Scalar Ordering.eq o p = BothLt o p
Scalar Ordering.gt o p = BothLt o p

abbrev both_lt? : (o p : Ordering) → Dec (BothLt o p)
both_lt? Ordering.lt Ordering.lt = yes tt
both_lt? Ordering.lt Ordering.eq = no (λ h. h)
both_lt? Ordering.lt Ordering.gt = no (λ h. h)
both_lt? Ordering.eq _ = no (λ h. h)
both_lt? Ordering.gt _ = no (λ h. h)

abbrev scalar? : (o p q : Ordering) → Dec (Scalar o p q)
scalar? Ordering.lt _ _ = yes tt
scalar? Ordering.eq p q = both_lt? p q
scalar? Ordering.gt p q = both_lt? p q

abbrev char_of : (n : ℕ) → Dec (IsScalar n) → Option Char
char_of n (yes p) = some (char n p)
char_of n (no _) = none

abbrev pub to_char : ℕ → Option Char
to_char n = char_of n (scalar? (compare n 55296) (compare 57343 n) (compare n 1114112))

abbrev pub codes : String → List ℕ
codes String.[] = []
codes (String.◌∷◌ c s) = code c ∷ codes s

abbrev join : Option Char → Option String → Option String
join none _ = none
join (some c) none = none
join (some c) (some s) = some (String.◌∷◌ c s)

abbrev pub of_codes : List ℕ → Option String
of_codes [] = some ""
of_codes (n ∷ ns) = join (to_char n) (of_codes ns)

char_of-code : (c : Char) (d : Dec (IsScalar (code c))) → char_of (code c) d ≡ some c
char_of-code c (yes p) = ap some (Char-path (char (code c) p) c refl)
char_of-code (char n q) (no h) = absurd (h q)

pub of_codes-codes : (s : String) → of_codes (codes s) ≡ some s
of_codes-codes String.[] = refl
of_codes-codes (String.◌∷◌ c s) = rw (char_of-code c _, of_codes-codes s) refl
