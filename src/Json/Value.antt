-- ===== src/Json/Value.antt =====
-- Values of the language. Numbers are integers: fractions and NaN, which only one field of the
-- messages may hold (doubleValue), are left out.
use text.Mathlib.Text.{◌==◌ as str_eq}
use merkle_proof_service.Prelude.{
  ℕ, ℤ, pos, negsuc, ◌<◌, All, ◌≡◌, refl, ap, String, Bool, true, false, not, List, [], ◌∷◌, ◌==◌,
  if◌then◌else◌,
}
use merkle_proof_service.Wire.Binary.{Outcome, ok, throw}

mutual
  pub data Value : Type 0 where
    undefined : Value
    null : Value
    flag : Bool → Value
    number : ℕ → Value
    negative : ℕ → Value
    string : String → Value
    array : Items → Value
    object : Fields → Value

  pub data Items : Type 0 where
    nil : Items
    cons : Value → Items → Items

  pub data Fields : Type 0 where
    end : Fields
    field : String → Value → Fields → Fields

-- `negative n` is the number -(n + 1).
abbrev pub integer : ℤ → Value
integer (pos n) = number n
integer (negsuc n) = negative n

abbrev pub elems : Items → List Value
elems nil = []
elems (cons v vs) = v ∷ elems vs

abbrev pub items : List Value → Items
items [] = nil
items (v ∷ vs) = cons v (items vs)

pub elems-items : (vs : List Value) → elems (items vs) ≡ vs
elems-items [] = refl
elems-items (v ∷ vs) = ap (◌∷◌ v) (elems-items vs)

abbrev pub fields : List (String × Value) → Fields
fields [] = end
fields ((k, v) ∷ kvs) = field k v (fields kvs)

-- A missing property is `undefined`.
unfoldable pub find : String → Fields → Value
find key end = undefined
find key (field k v fs) = if str_eq k key then v else find key fs

-- object.key: `undefined` and `null` have no properties, and the other primitive values and the
-- arrays have none of the names that the messages use.
unfoldable pub property : String → Value → Outcome Value
property key undefined = throw
property key null = throw
property key (object fs) = ok (find key fs)
property key other = ok undefined

-- object?.key
unfoldable pub optional_property : String → Value → Value
optional_property key (object fs) = find key fs
optional_property key other = undefined

-- function isSet(value)
unfoldable pub is_set : Value → Bool
is_set undefined = false
is_set null = false
is_set other = true

-- globalThis.Boolean
unfoldable pub to_boolean : Value → Bool
to_boolean undefined = false
to_boolean null = false
to_boolean (flag b) = b
to_boolean (number n) = not (n == 0)
to_boolean (negative n) = true
to_boolean (string s) = not (str_eq s "")
to_boolean (array vs) = true
to_boolean (object fs) = true

-- What the runtime's conversions make of values of another type: `globalThis.String` writes numbers
-- and joins arrays, `globalThis.Number` parses text. Where a field holds naturals alone the result
-- of `globalThis.Number` is `to_number`, elsewhere `to_integer`. A text that only stands for bytes, as
-- atob makes and btoa takes it, is the list of its char codes.
pub record Runtime : Type 0 where
  pub to_string : Value → String
  pub to_number : Value → ℕ
  pub to_integer : Value → ℤ
  pub has_buffer : Bool
  pub from_buffer : Value → Outcome (List ℕ)
  pub buffer_text : List ℕ → String
  pub atob : Value → Outcome (List ℕ)
  pub btoa : List ℕ → String

-- A string is its own text, and a number its own number; base64 is read back.
pub record IsRuntime (rt : Runtime) : Type 0 where
  pub to_string-string : (s : String) → rt.to_string (string s) ≡ s
  pub to_number-number : (n : ℕ) → rt.to_number (number n) ≡ n
  pub to_integer-integer : (z : ℤ) → rt.to_integer (integer z) ≡ z
  pub from_buffer-text :
      (bs : List ℕ) → All (λ b. b < 256) bs → rt.from_buffer (string (rt.buffer_text bs)) ≡ ok bs
  pub atob-btoa : (bs : List ℕ) → All (λ b. b < 256) bs → rt.atob (string (rt.btoa bs)) ≡ ok bs

-- Some runtime, for what depends on none.
abbrev pub any_runtime : Runtime
any_runtime = record {
  to_string = λ v. "";
  to_number = λ v. 0;
  to_integer = λ v. pos 0;
  has_buffer = false;
  from_buffer = λ v. throw;
  buffer_text = λ b. "";
  atob = λ v. throw;
  btoa = λ b. "";
}
