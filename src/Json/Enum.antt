-- ===== src/Json/Enum.antt =====
-- Enums in JSON: the `switch` of the functions `…FromJSON`, and what the two functions of an enum
-- promise. The label -1 of UNRECOGNIZED is left out: it goes to the same statement as `default`.
use text.Mathlib.Text.{◌==◌ as str_eq}
use text.Mathlib.TextEquality.{eq_iff}
use merkle_proof_service.Prelude.{
  ℕ, String, ◌≡◌, refl, sym, ap, ◌∙◌, Bool, true, false, Option, none, some, List, [], ◌∷◌, map,
  ◌⊎◌, inl, inr, ◌==◌, ==→eq, if◌then◌else◌, Bool-cases,
}
use merkle_proof_service.Json.Value.{Value, number, string}

-- The number of UNRECOGNIZED is -1, which is no natural number.
abbrev pub unnumbered : Option ℕ
unnumbered = none

-- case n: case "NAME": return e;
pub record EnumCase (E : Type 0) : Type 0 where
  pub label : ℕ
  pub name : String
  pub value : E

abbrev pub case_of : {E : Type 0} → ℕ → String → E → EnumCase E
case_of n s e = record { label = n; name = s; value = e }

-- `===` of the value of a switch and of a label
unfoldable pub matches : {E : Type 0} → Value → EnumCase E → Bool
matches (number n) c = n == c.label
matches (string s) c = str_eq s c.name
matches other c = false

unfoldable pub switch_enum : {E : Type 0} → List (EnumCase E) → E → Value → E
switch_enum [] unknown v = unknown
switch_enum (c ∷ cs) unknown v = if matches v c then c.value else switch_enum cs unknown v

abbrev first : List (String × Option ℕ) → String × Option ℕ
first [] = ("", none)
first (r ∷ rs) = r

abbrev rest : List (String × Option ℕ) → List (String × Option ℕ)
rest [] = []
rest (r ∷ rs) = rs

module _ {E : Type 0} (unrecognized : E) (code : E → Option ℕ) (from_json : Value → E)
    (to_json : E → String) where
  abbrev pub ReadsName : E → Type 0
  ReadsName e = from_json (string (to_json e)) ≡ e

  abbrev pub ReadsNumber : E → Type 0
  ReadsNumber e =
      ((code e ≡ none) × (e ≡ unrecognized))
      ⊎ ((n : ℕ) × (code e ≡ some n) × (from_json (number n) ≡ e))

  -- The JSON values that stand for a member of the enum.
  abbrev pub StandsFor : Value → E → Type 0
  StandsFor v e = (v ≡ string (to_json e)) ⊎ ((n : ℕ) × (code e ≡ some n) × (v ≡ number n))

  pub record IsEnum : Type 0 where
    pub by_name : (e : E) → ReadsName e
    pub by_number : (e : E) → ReadsNumber e
    pub only : (v : Value) → StandsFor v (from_json v) ⊎ (from_json v ≡ unrecognized)

  -- A case names a member as `to_json` does, and numbers it as the enum does.
  abbrev pub Fits : EnumCase E → Type 0
  Fits c = (to_json c.value ≡ c.name) × (code c.value ≡ some c.label)

  pub matches-StandsFor :
      (v : Value) (c : EnumCase E) → Fits c → matches v c ≡ true → StandsFor v c.value
  unfolding matches
  matches-StandsFor (number n) c (e, f) h = inr (c.label, f, ap number (==→eq n c.label h))
  matches-StandsFor (string s) c (e, f) h = inl (ap string ((eq_iff s c.name).0 h ∙ sym e))
  matches-StandsFor _ c f h = cc

  -- What the functions say of the members of the cases, and what the cases say.
  abbrev pub shown : List (EnumCase E) → List (String × Option ℕ)
  shown cs = map (λ c. (to_json c.value, code c.value)) cs

  abbrev pub cased : List (EnumCase E) → List (String × Option ℕ)
  cased cs = map (λ c. (c.name, some c.label)) cs

  pub switch_enum-StandsFor :
      (cs : List (EnumCase E)) (v : Value)
      → shown cs ≡ cased cs
      → StandsFor v (switch_enum cs unrecognized v) ⊎ (switch_enum cs unrecognized v ≡ unrecognized)
  unfolding switch_enum
  switch_enum-StandsFor [] v h = inr refl
  switch_enum-StandsFor (c ∷ cs) v h = elim (Bool-cases (matches v c)) [
    | inl same ↦
        rw same
          (inl (matches-StandsFor v c (ap (λ l. (first l).0) h, ap (λ l. (first l).1) h) same))
    | inr other ↦ rw other (switch_enum-StandsFor cs v (ap rest h))
  ]

-- The two JSON functions of an enum, and its numbers.
pub record EnumFns (E : Type 0) : Type 0 where
  pub code : E → Option ℕ
  pub from_json : Value → E
  pub to_json : E → String
