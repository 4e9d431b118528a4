-- ===== src/Json/Convert.antt =====
-- The expressions for one field in `fromJSON`, `toJSON` and `fromPartial`.
use text.Mathlib.Text.{◌==◌ as str_eq}
use merkle_proof_service.Prelude.{
  ℕ, String, Bool, false, Option, none, some, List, [], ◌∷◌, ◌++◌, map, ◌==◌, if◌then◌else◌,
}
use merkle_proof_service.Wire.Binary.{Outcome, ok, ◌>>=◌}
use merkle_proof_service.Json.Value.{
  Value, flag, number, string, array, object, elems, fields, items, property, optional_property,
  is_set, to_boolean, Runtime,
}

module _ (rt : Runtime) where
  -- isSet(object.key) ? globalThis.String(object.key) : ""
  unfoldable pub string_of : String → Value → Outcome String
  string_of key o = property key o >>= λ v. ok (if is_set v then rt.to_string v else "")

  -- isSet(object.key) ? globalThis.Number(object.key) : 0
  unfoldable pub number_of : String → Value → Outcome ℕ
  number_of key o = property key o >>= λ v. ok (if is_set v then rt.to_number v else 0)

-- isSet(object.key) ? globalThis.Boolean(object.key) : false
unfoldable pub flag_of : String → Value → Outcome Bool
flag_of key o = property key o >>= λ v. ok (if is_set v then to_boolean v else false)

-- globalThis.Array.isArray(object?.key) ? object.key : []
unfoldable pub array_of : String → Value → List Value
array_of key o = elim (optional_property key o) [ array vs ↦ elems vs | _ ↦ [] ]

-- object.key.map((e: any) => globalThis.String(e))
unfoldable pub strings_of : Runtime → String → Value → List String
strings_of rt key o = map rt.to_string (array_of key o)

-- A map with a function that may throw, from left to right.
unfoldable pub map_all {ℓ κ} :
    {A : Type ℓ} {B : Type κ} → (A → Outcome B) → List A → Outcome (List B)
map_all f [] = ok []
map_all f (x ∷ xs) = f x >>= λ y. map_all f xs >>= λ ys. ok (y ∷ ys)

module _ {ℓ} {M : Type ℓ} (from_json : Value → Outcome M) where
  -- isSet(object.key) ? M.fromJSON(object.key) : undefined
  unfoldable pub message_of : String → Value → Outcome (Option M)
  message_of key o = property key o >>= λ v.
      let parsed : Outcome (Option M) = from_json v >>= λ m. ok (some m) in
      if is_set v then parsed else ok none

  -- object.key.map((e: any) => M.fromJSON(e))
  unfoldable pub messages_of : String → Value → Outcome (List M)
  messages_of key o = map_all from_json (array_of key o)

-- The properties that `toJSON` sets, in order.
abbrev pub Entries : Type 0
Entries = List (String × Value)

-- if (v !== "") { obj.key = v; }
unfoldable pub string_entry : String → String → Entries
string_entry key v = if str_eq v "" then [] else (key, string v) ∷ []

-- if (v !== 0) { obj.key = Math.round(v); }
unfoldable pub number_entry : String → ℕ → Entries
number_entry key v = if v == 0 then [] else (key, number v) ∷ []

-- if (v !== false) { obj.key = v; }
unfoldable pub flag_entry : String → Bool → Entries
flag_entry key v = if v then (key, flag v) ∷ [] else []

-- if (v !== undefined) { obj.key = M.toJSON(v); }
unfoldable pub message_entry {ℓ} : {M : Type ℓ} → (M → Value) → String → Option M → Entries
message_entry to_json key none = []
message_entry to_json key (some v) = (key, to_json v) ∷ []

-- if (vs?.length) { obj.key = vs.map(…); }
unfoldable pub array_entry {ℓ} : {M : Type ℓ} → (M → Value) → String → List M → Entries
array_entry to_json key [] = []
array_entry to_json key (v ∷ vs) = (key, array (items (map to_json (v ∷ vs)))) ∷ []

abbrev pub concat : List Entries → Entries
concat [] = []
concat (e ∷ es) = e ++ concat es

-- const obj: any = {}; … return obj;
unfoldable pub build : List Entries → Value
build es = object (fields (concat es))

-- object.key ?? otherwise: `none` stands for `undefined` and for `null`.
unfoldable pub or_else {ℓ} : {A : Type ℓ} → Option A → A → A
or_else none a = a
or_else (some b) a = b

-- (object.key !== undefined && object.key !== null) ? M.fromPartial(object.key) : undefined
unfoldable pub map_option {ℓ κ} : {A : Type ℓ} {B : Type κ} → (A → B) → Option A → Option B
map_option f none = none
map_option f (some a) = some (f a)

-- object.key?.map((e) => M.fromPartial(e)) || []
unfoldable pub map_or_empty {ℓ κ} : {A : Type ℓ} {B : Type κ} → (A → B) → Option (List A) → List B
map_or_empty f none = []
map_or_empty f (some xs) = map f xs
