-- ===== src/Message/Kinds.antt =====
-- The rows of fields that hold strings, flags and other single values.
use merkle_proof_service.Prelude.{
  ℕ, ◌^◌, ◌/◌, ◌<◌, ◌≡◌, refl, sym, ap, subst, ◌∙◌, String, Bool, false, Option, none, some, List,
  [], ◌∷◌, ◌++◌, map_id, inl, inr, if◌then◌else◌, Bool-cases, AllOption,
}
use merkle_proof_service.Wire.Binary.{Wire, IsLawful, ok, ◌>>=◌, uint32}
use merkle_proof_service.Wire.Loop.{
  Case, case_at, switch, write_string, write_bool, write_uint32, write_strings, on_string, on_bool,
  on_uint32,
}
use merkle_proof_service.Wire.Steps.{read-Takes}
use merkle_proof_service.Wire.Fields.{
  Encodes, Encodes-skip, Encodes-same, Encodes-tagged, Encodes-string, Encodes-bool, Encodes-uint32,
  Encodes-strings,
}
use merkle_proof_service.Wire.Ends.{
  Forward, store-Forward, on_string-Forward, on_bool-Forward, on_uint32-Forward,
}
use merkle_proof_service.Json.Value.{Value, undefined, string, property, is_set, Runtime}
use merkle_proof_service.Json.Convert.{
  string_of, number_of, flag_of, strings_of, string_entry, number_entry, flag_entry, array_entry,
  or_else, map_or_empty,
}
use merkle_proof_service.Json.Entries.{
  IsEntry, string_value, number_value, flag_value, string_entry-IsEntry, number_entry-IsEntry,
  flag_entry-IsEntry, string_of-value, number_of-value, flag_of-value,
}
use merkle_proof_service.Json.Nested.{array_value, array_entry-IsEntry, strings_of-value}
use merkle_proof_service.Message.Scalar.{
  Scalar, write_present, on_scalar, present_of, present_entry, or_present,
}
use merkle_proof_service.Message.Scalar.Laws.{IsScalar}
use merkle_proof_service.Message.Row.{Row, store, push}

module _ {A : Type 0} (s : Scalar A) where
  abbrev pub present_value : Option A → Value
  present_value none = undefined
  present_value (some v) = if s.is_default v then undefined else s.to_json v

  pub present_entry-IsEntry :
      (k : String) (v : Option A) → IsEntry k (present_value v) (present_entry s k v)
  unfolding present_entry
  present_entry-IsEntry k none = inl (refl, refl)
  present_entry-IsEntry k (some v) = elim (Bool-cases (s.is_default v)) [
    | inl e ↦ rw e (inl (refl, refl))
    | inr e ↦ rw e (inr refl)
  ]

  -- A field that is `undefined` is read as the default value.
  abbrev pub present : Option A → Option A
  present v = or_present v s.default

  module _ (IsValid : A → Type 0) (S : IsScalar s IsValid) where
    pub present_of-value :
        (key : String) (o : Value) (v : Option A)
        → AllOption IsValid v
        → property key o ≡ ok (present_value v)
        → present_of s key o ≡ ok (present v)
    unfolding present_of is_set or_present or_else
    present_of-value key o none valid h = rw h refl
    present_of-value key o (some v) valid h = elim (Bool-cases (s.is_default v)) [
      | inl e ↦ rw (h, e) (ap (λ a. ok (some a)) (sym (S.default_only v e)))
      | inr e ↦ rw (h, e, ◌>>=◌) (rw (S.set v) (rw (S.json v valid, ◌>>=◌) refl))
    ]

    pub present-Encodes :
        (w : Wire)
        → IsLawful w
        → {M : Type 0} (cs : List (Case M)) (tag : ℕ) (set : M → Option A → M) → tag < 2 ^ 32
        → switch tag cs ≡ some (on_scalar s (store set))
        → (m : M) (v : Option A) → AllOption IsValid v
        → set m (some s.default) ≡ m
        → Encodes w cs (write_present w s tag v) m (set m (present v))
    unfolding write_present on_scalar uint32 or_present or_else
    present-Encodes w L cs tag set small chosen m none valid starts =
        subst (λ n. Encodes w cs (λ writer. writer) m n) (sym starts)
          (Encodes-skip w cs m (λ writer. refl))
    present-Encodes w L cs tag set small chosen m (some v) valid starts =
        elim (Bool-cases (s.is_default v)) [
          | inl e ↦
              subst (λ n. Encodes w cs (write_present w s tag (some v)) m n)
                (sym starts ∙ ap (λ a. set m (some a)) (sym (S.default_only v e)))
                (Encodes-skip w cs m (λ writer. rw e refl))
          | inr e ↦
              Encodes-same w cs (λ writer. rw e refl)
                (Encodes-tagged w L cs tag (s.put v) (on_scalar s (store set)) small chosen
                  (λ p more.
                    rw (read-Takes s.get (s.put v) v (λ r. S.get-put v r valid) p more, ◌>>=◌)
                      refl))
        ]

-- A field whose type holds every value.
pub free : {A : Type 0} (v : Option A) → AllOption (λ a. Unit {0}) v
free none = tt
free (some v) = tt

pub on_scalar-Forward :
    (w : Wire)
    → IsLawful w
    → {A M : Type 0} (s : Scalar A) (IsValid : A → Type 0) → IsScalar s IsValid
    → (put : M → A → M) → Forward (on_scalar s put)
unfolding on_scalar
on_scalar-Forward w L s IsValid S put = store-Forward w L s.get S.takes put

pub or_else-some : {A : Type 0} (v d : A) → or_else (some v) d ≡ v
unfolding or_else
or_else-some v d = refl

pub map_or_empty-id : {A : Type 0} (vs : List A) → map_or_empty (λ e. e) (some vs) ≡ vs
unfolding map_or_empty
map_or_empty-id vs = map_id vs

module _ (w : Wire) (L : IsLawful w) (rt : Runtime) {M P : Type 0} where
  -- A field that holds a single value or `undefined`.
  abbrev pub scalar_row :
      {A : Type 0} {s : Scalar A} {IsValid : A → Type 0}
      → IsScalar s IsValid
      → (tag : ℕ) → tag < 2 ^ 32
      → String
      → (M → Option A)
      → (M → Option A → M)
      → (P → Option A)
      → Row w rt M P
  scalar_row {A} {s} {IsValid} S tag small key get set pget = record {
    A = Option A;
    PA = Option A;
    get = get;
    put = set;
    pget = pget;
    default = some s.default;
    norm = present s;
    IsValid = AllOption IsValid;
    tag = tag;
    write = write_present w s tag;
    handler = on_scalar s (store set);
    accepting = case_at (tag / 8) tag (on_scalar s (store set));
    key = key;
    read = present_of s key;
    entry = present_entry s key;
    value = present_value s;
    convert = λ v. or_present v s.default;
    embed = λ v. v;
    encodes = λ cs chosen. present-Encodes s IsValid S w L cs tag set small chosen;
    forward = on_scalar-Forward w L s IsValid S (store set);
    is_entry = present_entry-IsEntry s key;
    reads = λ R o v valid h _. present_of-value s IsValid S key o v valid h;
    convert-embed = λ v _. refl;
  }

  -- A field that holds a string.
  abbrev pub string_row :
      (tag : ℕ)
      → tag < 2 ^ 32
      → String
      → (M → String)
      → (set : M → String → M) → ((m : M) (a b : String) → set (set m a) b ≡ set m b)
      → (P → Option String)
      → Row w rt M P
  string_row tag small key get set keeps pget = record {
    A = String;
    PA = Option String;
    get = get;
    put = set;
    pget = pget;
    default = "";
    norm = λ v. v;
    IsValid = λ v. Unit {0};
    tag = tag;
    write = write_string w tag;
    handler = on_string w set;
    accepting = case_at (tag / 8) tag (on_string w set);
    key = key;
    read = string_of rt key;
    entry = string_entry key;
    value = string_value;
    convert = λ v. or_else v "";
    embed = some;
    encodes = λ cs chosen m v _ starts.
        subst (λ n. Encodes w cs (write_string w tag v) n (set m v)) starts
          (Encodes-string w L cs tag (set m) set small chosen (keeps m) v);
    forward = on_string-Forward w L set;
    is_entry = string_entry-IsEntry key;
    reads = λ R o v _ h _. string_of-value rt R key o v h;
    convert-embed = λ v _. or_else-some v "";
  }

  -- A field that holds a uint32.
  abbrev pub uint32_row :
      (tag : ℕ)
      → tag < 2 ^ 32
      → String
      → (M → ℕ)
      → (set : M → ℕ → M) → ((m : M) (a b : ℕ) → set (set m a) b ≡ set m b)
      → (P → Option ℕ)
      → Row w rt M P
  uint32_row tag small key get set keeps pget = record {
    A = ℕ;
    PA = Option ℕ;
    get = get;
    put = set;
    pget = pget;
    default = 0;
    norm = λ v. v;
    IsValid = λ v. v < 2 ^ 32;
    tag = tag;
    write = write_uint32 w tag;
    handler = on_uint32 w set;
    accepting = case_at (tag / 8) tag (on_uint32 w set);
    key = key;
    read = number_of rt key;
    entry = number_entry key;
    value = number_value;
    convert = λ v. or_else v 0;
    embed = some;
    encodes = λ cs chosen m v valid starts.
        subst (λ n. Encodes w cs (write_uint32 w tag v) n (set m v)) starts
          (Encodes-uint32 w L cs tag (set m) set small chosen (keeps m) v valid);
    forward = on_uint32-Forward w L set;
    is_entry = number_entry-IsEntry key;
    reads = λ R o v _ h _. number_of-value rt R key o v h;
    convert-embed = λ v _. or_else-some v 0;
  }

  -- A field that holds a flag.
  abbrev pub bool_row :
      (tag : ℕ)
      → tag < 2 ^ 32
      → String
      → (M → Bool)
      → (set : M → Bool → M) → ((m : M) (a b : Bool) → set (set m a) b ≡ set m b)
      → (P → Option Bool)
      → Row w rt M P
  bool_row tag small key get set keeps pget = record {
    A = Bool;
    PA = Option Bool;
    get = get;
    put = set;
    pget = pget;
    default = false;
    norm = λ v. v;
    IsValid = λ v. Unit {0};
    tag = tag;
    write = write_bool w tag;
    handler = on_bool w set;
    accepting = case_at (tag / 8) tag (on_bool w set);
    key = key;
    read = flag_of key;
    entry = flag_entry key;
    value = flag_value;
    convert = λ v. or_else v false;
    embed = some;
    encodes = λ cs chosen m v _ starts.
        subst (λ n. Encodes w cs (write_bool w tag v) n (set m v)) starts
          (Encodes-bool w L cs tag (set m) set small chosen (keeps m) v);
    forward = on_bool-Forward w L set;
    is_entry = flag_entry-IsEntry key;
    reads = λ R o v _ h _. flag_of-value key o v h;
    convert-embed = λ v _. or_else-some v false;
  }

  -- A field that holds strings.
  abbrev pub strings_row :
      (tag : ℕ)
      → tag < 2 ^ 32
      → String
      → (get : M → List String) → (set : M → List String → M)
      → ((m : M) (a : List String) (b : String) → push get set (set m a) b ≡ set m (a ++ b ∷ []))
      → (P → Option (List String))
      → Row w rt M P
  strings_row tag small key get set keeps pget = record {
    A = List String;
    PA = Option (List String);
    get = get;
    put = set;
    pget = pget;
    default = [];
    norm = λ v. v;
    IsValid = λ v. Unit {0};
    tag = tag;
    write = write_strings w tag;
    handler = on_string w (push get set);
    accepting = case_at (tag / 8) tag (on_string w (push get set));
    key = key;
    read = λ o. ok (strings_of rt key o);
    entry = array_entry string key;
    value = array_value string;
    convert = map_or_empty (λ e. e);
    embed = some;
    encodes = λ cs chosen m v _ starts.
        subst (λ n. Encodes w cs (write_strings w tag v) n (set m v)) starts
          (Encodes-strings w L cs tag (set m) (push get set) small chosen (keeps m) v);
    forward = on_string-Forward w L (push get set);
    is_entry = array_entry-IsEntry string key;
    reads = λ R o v _ _ h. ap ok (strings_of-value rt R key o v h);
    convert-embed = λ v _. map_or_empty-id v;
  }
