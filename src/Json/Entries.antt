-- ===== src/Json/Entries.antt =====
-- What `toJSON` sets under a key, and what `fromJSON` finds there.
use text.Mathlib.Text.{◌==◌ as str_eq}
use text.Mathlib.TextEquality.{eq_iff}
use merkle_proof_service.Prelude.{
  ℕ, ◌≡◌, refl, sym, ap, ◌⊎◌, inl, inr, String, Bool, true, false, List, [], ◌∷◌, ==→eq, ◌==◌,
  if◌then◌else◌, Bool-cases,
}
use merkle_proof_service.Wire.Binary.{ok}
use merkle_proof_service.Json.Value.{
  Value, undefined, flag, number, string, fields, find, property, optional_property, is_set,
  to_boolean, Runtime, IsRuntime,
}
use merkle_proof_service.Json.Convert.{
  Entries, string_of, number_of, flag_of, string_entry, number_entry, flag_entry, concat, build,
}

-- The entry sets `k` to `v`, or nothing if `v` is `undefined`.
abbrev pub IsEntry : String → Value → Entries → Type 0
IsEntry k v e = ((e ≡ []) × (v ≡ undefined)) ⊎ (e ≡ (k, v) ∷ [])

abbrev pub find_row : String → List (String × Value) → Value
find_row key [] = undefined
find_row key ((k, v) ∷ rows) = if str_eq k key then v else find_row key rows

-- The entries of an object and the values that they stand for, under keys that differ.
pub data Rows : List Entries → List (String × Value) → Type 0 where
  none_left : Rows [] []
  row :
      {k : String} {v : Value} {e : Entries} {es : List Entries} {rows : List (String × Value)}
      → IsEntry k v e
      → find_row k rows ≡ undefined
      → Rows es rows
      → Rows (e ∷ es) ((k, v) ∷ rows)

find-Rows :
    {es : List Entries} {rows : List (String × Value)} (key : String)
    → Rows es rows
    → find key (fields (concat es)) ≡ find_row key rows
unfolding find
find-Rows key none_left = refl
find-Rows key (row {k} {v} {e} {es} {rows} (inl (e1, e2)) fresh rest) =
    elim (Bool-cases (str_eq k key)) [
      | inl same ↦ rw (e1, same, e2) (rw (find-Rows key rest) (rw ((eq_iff k key).0 same) at fresh))
      | inr other ↦ rw (e1, other) (find-Rows key rest)
    ]
find-Rows key (row {k} {v} {e} {es} {rows} (inr e1) fresh rest) = rw (e1, find-Rows key rest)

pub property-Rows :
    {es : List Entries} {rows : List (String × Value)} (key : String)
    → Rows es rows
    → property key (build es) ≡ ok (find_row key rows)
unfolding property build
property-Rows key rows = ap ok (find-Rows key rows)

pub optional_property-Rows :
    {es : List Entries} {rows : List (String × Value)} (key : String)
    → Rows es rows
    → optional_property key (build es) ≡ find_row key rows
unfolding optional_property build
optional_property-Rows key rows = find-Rows key rows

abbrev pub string_value : String → Value
string_value v = if str_eq v "" then undefined else string v

abbrev pub number_value : ℕ → Value
number_value v = if v == 0 then undefined else number v

abbrev pub flag_value : Bool → Value
flag_value v = if v then flag v else undefined

pub string_entry-IsEntry : (k v : String) → IsEntry k (string_value v) (string_entry k v)
unfolding string_entry
string_entry-IsEntry k v = elim (Bool-cases (str_eq v "")) [
  | inl e ↦ rw e (inl (refl, refl))
  | inr e ↦ rw e (inr refl)
]

pub number_entry-IsEntry : (k : String) (v : ℕ) → IsEntry k (number_value v) (number_entry k v)
unfolding number_entry
number_entry-IsEntry k v = elim (Bool-cases (v == 0)) [
  | inl e ↦ rw e (inl (refl, refl))
  | inr e ↦ rw e (inr refl)
]

pub flag_entry-IsEntry : (k : String) (v : Bool) → IsEntry k (flag_value v) (flag_entry k v)
unfolding flag_entry
flag_entry-IsEntry k true = inr refl
flag_entry-IsEntry k false = inl (refl, refl)

pub string_of-value :
    (rt : Runtime)
    → IsRuntime rt
    → (key : String) (o : Value) (v : String) → property key o ≡ ok (string_value v)
    → string_of rt key o ≡ ok v
unfolding string_of is_set
string_of-value rt R key o v h = elim (Bool-cases (str_eq v "")) [
  | inl e ↦ rw (h, e) (ap ok (sym ((eq_iff v "").0 e)))
  | inr e ↦ rw (h, e) (ap ok (R.to_string-string v))
]

pub number_of-value :
    (rt : Runtime)
    → IsRuntime rt
    → (key : String) (o : Value) (v : ℕ) → property key o ≡ ok (number_value v)
    → number_of rt key o ≡ ok v
unfolding number_of is_set
number_of-value rt R key o v h = elim (Bool-cases (v == 0)) [
  | inl e ↦ rw (h, e) (ap ok (sym (==→eq v 0 e)))
  | inr e ↦ rw (h, e) (ap ok (R.to_number-number v))
]

pub flag_of-value :
    (key : String) (o : Value) (v : Bool)
    → property key o ≡ ok (flag_value v)
    → flag_of key o ≡ ok v
unfolding flag_of is_set to_boolean
flag_of-value key o true h = rw h
flag_of-value key o false h = rw h
