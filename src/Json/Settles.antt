-- ===== src/Json/Settles.antt =====
-- On which values the field expressions of `fromJSON`, of gen/ts/galactica/merkle/query.ts, throw:
-- string_of, number_of, flag_of, message_of and messages_of of Json.Convert.
use merkle_proof_service.Prelude.{
  ◌≡◌, refl, subst, String, none, some, Bool, true, false, ◌&&◌, List, [], ◌∷◌, inl, inr,
  Bool-cases,
}
use merkle_proof_service.Wire.Binary.{Outcome, ok, throw, stuck, ◌>>=◌}
use merkle_proof_service.Json.Value.{
  Value, undefined, null, flag, number, negative, string, array, object, elems, find, property,
  optional_property, is_set, Runtime,
}
use merkle_proof_service.Json.Convert.{
  string_of, number_of, flag_of, message_of, messages_of, array_of, map_all,
}

-- A value where the test holds, and an exception where it does not.
abbrev pub Settles : {A : Type 0} → Bool → Outcome A → Type 0
Settles {A} true o = (a : A) × (o ≡ ok a)
Settles false o = o ≡ throw

-- No element is `undefined` or `null`.
abbrev pub all_set : List Value → Bool
all_set [] = true
all_set (v ∷ vs) = is_set v && all_set vs

-- An array has no such element. What is not an array counts as the empty one.
abbrev pub has_no_gap : Value → Bool
has_no_gap (array vs) = all_set (elems vs)
has_no_gap _ = true

pub Settles-bind :
    {A B : Type 0} (a b : Bool) (o : Outcome A) (f : A → Outcome B)
    → Settles a o
    → ((x : A) → Settles b (f x))
    → Settles (a && b) (o >>= f)
Settles-bind true b (ok x) f h k = k x
Settles-bind true b throw f (x, e) k = cc
Settles-bind true b stuck f (x, e) k = cc
Settles-bind false b (ok x) f h k = cc
Settles-bind false b throw f h k = refl
Settles-bind false b stuck f h k = cc

-- The function after it does not throw.
pub Settles-then :
    {A B : Type 0} (b : Bool) (o : Outcome A) (f : A → Outcome B)
    → Settles b o
    → ((x : A) → Settles true (f x))
    → Settles b (o >>= f)
Settles-then true (ok x) f h k = k x
Settles-then true throw f (x, e) k = cc
Settles-then true stuck f (x, e) k = cc
Settles-then false (ok x) f h k = cc
Settles-then false throw f h k = refl
Settles-then false stuck f h k = cc

-- Both throw on the same values.
pub Settles-both :
    {A B : Type 0} (a : Bool) (o : Outcome A) (f : A → Outcome B)
    → Settles a o
    → ((x : A) → Settles a (f x))
    → Settles a (o >>= f)
Settles-both true o f h k = Settles-bind true true o f h k
Settles-both false o f h k = Settles-bind false false o f h k

map_all-Settles :
    {A : Type 0} (f : Value → Outcome A)
    → ((v : Value) → Settles (is_set v) (f v))
    → (vs : List Value) → Settles (all_set vs) (map_all f vs)
unfolding map_all
map_all-Settles f h [] = ([], refl)
map_all-Settles f h (v ∷ vs) =
    Settles-bind (is_set v) (all_set vs) (f v) _ (h v)
      λ y. Settles-then (all_set vs) (map_all f vs) _ (map_all-Settles f h vs) λ ys. (y ∷ ys, refl)

-- Reading a property throws on a value that is not set, and on no other.
property-Settles : (key : String) (v : Value) → Settles (is_set v) (property key v)
unfolding property is_set
property-Settles key undefined = refl
property-Settles key null = refl
property-Settles key (flag b) = (undefined, refl)
property-Settles key (number n) = (undefined, refl)
property-Settles key (negative n) = (undefined, refl)
property-Settles key (string s) = (undefined, refl)
property-Settles key (array vs) = (undefined, refl)
property-Settles key (object fs) = (find key fs, refl)

pub string_of-Settles :
    (rt : Runtime) (key : String) (v : Value) → Settles (is_set v) (string_of rt key v)
unfolding string_of
string_of-Settles rt key v =
    Settles-then (is_set v) (property key v) _ (property-Settles key v) λ x. (_, refl)

pub number_of-Settles :
    (rt : Runtime) (key : String) (v : Value) → Settles (is_set v) (number_of rt key v)
unfolding number_of
number_of-Settles rt key v =
    Settles-then (is_set v) (property key v) _ (property-Settles key v) λ x. (_, refl)

pub flag_of-Settles : (key : String) (v : Value) → Settles (is_set v) (flag_of key v)
unfolding flag_of
flag_of-Settles key v =
    Settles-then (is_set v) (property key v) _ (property-Settles key v) λ x. (_, refl)

-- A nested message is read only where it is set.
pub message_of-Settles :
    {M : Type 0} (from_json : Value → Outcome M)
    → ((v : Value) → Settles (is_set v) (from_json v))
    → (key : String) (v : Value) → Settles (is_set v) (message_of from_json key v)
unfolding message_of
message_of-Settles from_json h key v =
    Settles-then (is_set v) (property key v) _ (property-Settles key v) λ x.
      elim (Bool-cases (is_set x)) [
        | inl e ↦ rw e (
            Settles-then true (from_json x) _ (subst (λ b. Settles b (from_json x)) e (h x))
              λ m. (some m, refl))
        | inr e ↦ rw e (none, refl)
      ]

pub messages_of-Settles :
    {M : Type 0} (from_json : Value → Outcome M)
    → ((v : Value) → Settles (is_set v) (from_json v))
    → (key : String) (v : Value)
    → Settles (has_no_gap (optional_property key v)) (messages_of from_json key v)
unfolding messages_of array_of
messages_of-Settles from_json h key v =
    elim (optional_property key v)
      as (λ w.
        Settles (has_no_gap w) (map_all from_json (elim w [ array vs ↦ elems vs | _ ↦ [] ]))) [
          | array vs ↦ map_all-Settles from_json h (elems vs)
          | _ ↦ map_all-Settles from_json h []
        ]
