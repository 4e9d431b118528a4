-- ===== src/Json/Nested.antt =====
-- Arrays and messages under a key.
use merkle_proof_service.Prelude.{
  ◌≡◌, refl, inl, inr, String, Option, none, some, List, [], ◌∷◌, map,
}
use merkle_proof_service.Json.Value.{
  Value, undefined, string, array, items, elems-items, optional_property, Runtime, IsRuntime,
}
use merkle_proof_service.Json.Convert.{array_of, strings_of, message_entry, array_entry}
use merkle_proof_service.Json.Entries.{IsEntry}

module _ {ℓ} {M : Type ℓ} (to_json : M → Value) where
  abbrev pub message_value : Option M → Value
  message_value none = undefined
  message_value (some v) = to_json v

  abbrev pub array_value : List M → Value
  array_value [] = undefined
  array_value (v ∷ vs) = array (items (map to_json (v ∷ vs)))

  pub message_entry-IsEntry :
      (k : String) (v : Option M) → IsEntry k (message_value v) (message_entry to_json k v)
  unfolding message_entry
  message_entry-IsEntry k none = inl (refl, refl)
  message_entry-IsEntry k (some v) = inr refl

  pub array_entry-IsEntry :
      (k : String) (vs : List M) → IsEntry k (array_value vs) (array_entry to_json k vs)
  unfolding array_entry
  array_entry-IsEntry k [] = inl (refl, refl)
  array_entry-IsEntry k (v ∷ vs) = inr refl

  pub array_of-value :
      (key : String) (o : Value) (vs : List M)
      → optional_property key o ≡ array_value vs
      → array_of key o ≡ map to_json vs
  unfolding array_of
  array_of-value key o [] h = rw (h, array_of)
  array_of-value key o (v ∷ vs) h = rw (h, array_of) (elems-items (map to_json (v ∷ vs)))

pub strings_of-value :
    (rt : Runtime)
    → IsRuntime rt
    → (key : String) (o : Value) (vs : List String)
    → optional_property key o ≡ array_value string vs
    → strings_of rt key o ≡ vs
unfolding strings_of
strings_of-value rt R key o vs h = rw (array_of-value string key o vs h) (texts vs)
  where
    texts : (ws : List String) → map rt.to_string (map string ws) ≡ ws
    texts [] = refl
    texts (w ∷ ws) = rw (R.to_string-string w, texts ws)
