-- ===== src/Message/Packed.antt =====
-- The rows of packed repeated int32 fields.
use merkle_proof_service.Prelude.{
  ℕ, ℤ, IsWithin, ◌/◌, ◌^◌, ◌<◌, ◌≡◌, refl, subst, String, Option, some, List, [], ◌∷◌, ◌++◌, map,
  length, All,
}
use merkle_proof_service.Wire.Binary.{Wire, IsLawful, ok, ◌>>=◌}
use merkle_proof_service.Wire.Loop.{packed_at}
use merkle_proof_service.Wire.Fields.{Encodes}
use merkle_proof_service.Wire.Packed.{
  write_all_int32, write_packed, on_int32, on_packed, on_int32-Forward, on_packed-Forward,
  Encodes-packed,
}
use merkle_proof_service.Json.Value.{Runtime, Value, optional_property}
use merkle_proof_service.Json.Convert.{map_all, messages_of, array_entry, map_or_empty}
use merkle_proof_service.Json.Nested.{array_value, array_entry-IsEntry, array_of-value}
use merkle_proof_service.Message.Scalar.{Scalar}
use merkle_proof_service.Message.Scalar.Laws.{IsScalar}
use merkle_proof_service.Message.Kinds.{map_or_empty-id}
use merkle_proof_service.Message.Row.{Row, push}

-- Values that are int32s and, together, have a length for their prefix.
abbrev pub FitsPacked : Wire → (ℤ → Type 0) → List ℤ → Type 0
FitsPacked w IsValid vs =
    All IsValid vs × All (IsWithin (2 ^ 31)) vs × (length (write_all_int32 w vs []) < 2 ^ 32)

module _ {s : Scalar ℤ} {IsValid : ℤ → Type 0} (S : IsScalar s IsValid) where
  map_all-json : (vs : List ℤ) → All IsValid vs → map_all s.of_json (map s.to_json vs) ≡ ok vs
  unfolding map_all
  map_all-json [] h = refl
  map_all-json (v ∷ vs) (h, hs) = rw (S.json v h, ◌>>=◌) (rw (map_all-json vs hs) refl)

  pub messages_of-json :
      (key : String) (o : Value) (vs : List ℤ)
      → All IsValid vs
      → optional_property key o ≡ array_value s.to_json vs
      → messages_of s.of_json key o ≡ ok vs
  unfolding messages_of
  messages_of-json key o vs valid h =
      rw (array_of-value s.to_json key o vs h) (map_all-json vs valid)

module _ (w : Wire) (L : IsLawful w) (rt : Runtime) {M P : Type 0} where
  -- A field that holds numbers, packed; `tag` stands before all of them, `one` before a single one.
  abbrev pub packed_row :
      {s : Scalar ℤ} {IsValid : ℤ → Type 0}
      → IsScalar s IsValid
      → (one tag : ℕ) → tag < 2 ^ 32
      → String
      → (get : M → List ℤ) → (set : M → List ℤ → M)
      → ((m : M) (a : List ℤ) (b : ℤ) → push get set (set m a) b ≡ set m (a ++ b ∷ []))
      → (P → Option (List ℤ))
      → Row w rt M P
  packed_row {s} {IsValid} S one tag small key get set keeps pget = record {
    A = List ℤ;
    PA = Option (List ℤ);
    get = get;
    put = set;
    pget = pget;
    default = [];
    norm = λ v. v;
    IsValid = FitsPacked w IsValid;
    tag = tag;
    write = write_packed w tag;
    handler = on_packed w (push get set);
    accepting =
        packed_at (tag / 8) one (on_int32 w (push get set)) tag (on_packed w (push get set));
    key = key;
    read = messages_of s.of_json key;
    entry = array_entry s.to_json key;
    value = array_value s.to_json;
    convert = map_or_empty (λ e. e);
    embed = some;
    encodes = λ cs chosen m v valid starts.
        subst (λ n. Encodes w cs (write_packed w tag v) n (set m v)) starts
          (Encodes-packed w L (set m) (push get set) (keeps m) cs tag small chosen v valid.1
            valid.2);
    forward = (on_int32-Forward w L (push get set), on_packed-Forward w L (push get set));
    is_entry = array_entry-IsEntry s.to_json key;
    reads = λ R o v valid _ h. messages_of-json S key o v valid.0 h;
    convert-embed = λ v _. map_or_empty-id v;
  }
