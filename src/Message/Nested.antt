-- ===== src/Message/Nested.antt =====
-- The rows of fields that hold messages.
use merkle_proof_service.Prelude.{
  ℕ, ◌^◌, ◌/◌, ◌<◌, ◌≡◌, refl, ap, subst, String, Option, none, some, List, [], ◌∷◌, ◌++◌, map,
  length, All, AllOption,
}
use merkle_proof_service.Wire.Binary.{Wire, IsLawful, Writer, ok, ◌>>=◌}
use merkle_proof_service.Wire.Loop.{case_at, write_message, write_messages, on_message}
use merkle_proof_service.Wire.Fields.{Encodes}
use merkle_proof_service.Wire.Nested.{NestedAs, Encodes-message_as, Encodes-messages_as}
use merkle_proof_service.Wire.Ends.{on_message-Forward}
use merkle_proof_service.Json.Value.{Value, property, optional_property, is_set, Runtime, IsRuntime}
use merkle_proof_service.Json.Convert.{
  message_of, messages_of, map_all, message_entry, array_entry, map_option, map_or_empty,
}
use merkle_proof_service.Json.Nested.{
  message_value, array_value, message_entry-IsEntry, array_entry-IsEntry, array_of-value,
}
use merkle_proof_service.Message.Row.{Row, Message, store, push}

-- A message that is valid and has a length for its prefix.
abbrev pub Fitting : {V : Type 0} → (V → Type 0) → (V → Writer → Writer) → V → Type 0
Fitting IsValid encode v = IsValid v × (length (encode v []) < 2 ^ 32)

module _ {rt : Runtime} {V PV : Type 0} (N : Message rt V PV) where
  -- A message that can stand in a field.
  abbrev pub IsNested : V → Type 0
  IsNested = Fitting N.IsValid N.fns.encode

  nested : (v : V) → IsNested v → NestedAs N.fns.encode N.fns.decode v (N.normal v)
  nested v (valid, fits) = record { coded = N.coded v valid; fits = fits }

  pub nested-AllOption :
      (o : Option V)
      → AllOption IsNested o
      → AllOption (λ v. NestedAs N.fns.encode N.fns.decode v (N.normal v)) o
  nested-AllOption none h = tt
  nested-AllOption (some v) h = nested v h

  pub nested-All :
      (vs : List V)
      → All IsNested vs
      → All (λ v. NestedAs N.fns.encode N.fns.decode v (N.normal v)) vs
  nested-All [] h = tt
  nested-All (v ∷ vs) (h, hs) = (nested v h, nested-All vs hs)

  pub message_of-normal :
      IsRuntime rt
      → (key : String) (o : Value) (v : Option V) → AllOption IsNested v
      → property key o ≡ ok (message_value N.fns.to_json v)
      → message_of N.fns.from_json key o ≡ ok (map_option N.normal v)
  unfolding message_of is_set map_option
  message_of-normal R key o none valid h = rw h refl
  message_of-normal R key o (some v) valid h =
      rw (h, ◌>>=◌) (rw (N.set v) (rw (N.json R v valid.0) refl))

  map_all-normal :
      IsRuntime rt
      → (vs : List V) → All IsNested vs
      → map_all N.fns.from_json (map N.fns.to_json vs) ≡ ok (map N.normal vs)
  unfolding map_all
  map_all-normal R [] h = refl
  map_all-normal R (v ∷ vs) (h, hs) = rw (N.json R v h.0, ◌>>=◌) (rw (map_all-normal R vs hs) refl)

  pub messages_of-normal :
      IsRuntime rt
      → (key : String) (o : Value) (vs : List V) → All IsNested vs
      → optional_property key o ≡ array_value N.fns.to_json vs
      → messages_of N.fns.from_json key o ≡ ok (map N.normal vs)
  unfolding messages_of
  messages_of-normal R key o vs valid h =
      rw (array_of-value N.fns.to_json key o vs h) (map_all-normal R vs valid)

  pub map_option-normal :
      (v : Option V)
      → AllOption IsNested v
      → map_option N.fns.from_partial (map_option N.embed v) ≡ map_option N.normal v
  unfolding map_option
  map_option-normal none h = refl
  map_option-normal (some v) h = ap some (N.partial v h.0)

  map-normal :
      (vs : List V) → All IsNested vs → map N.fns.from_partial (map N.embed vs) ≡ map N.normal vs
  map-normal [] h = refl
  map-normal (v ∷ vs) (h, hs) = rw (N.partial v h.0, map-normal vs hs) refl

  pub map_or_empty-normal :
      (vs : List V)
      → All IsNested vs
      → map_or_empty N.fns.from_partial (some (map N.embed vs)) ≡ map N.normal vs
  unfolding map_or_empty
  map_or_empty-normal vs h = map-normal vs h

module _ (w : Wire) (L : IsLawful w) {rt : Runtime} {M P V PV : Type 0} (N : Message rt V PV)
    (tag : ℕ) (small : tag < 2 ^ 32) (key : String) where
  -- A field that holds a message or `undefined`.
  abbrev pub message_row :
      (M → Option V)
      → (set : M → Option V → M)
      → ((m : M) (a : Option V) (b : V) → store set (set m a) b ≡ set m (some b))
      → (P → Option PV)
      → Row w rt M P
  message_row get set keeps pget = record {
    A = Option V;
    PA = Option PV;
    get = get;
    put = set;
    pget = pget;
    default = none;
    norm = map_option N.normal;
    IsValid = AllOption (IsNested N);
    tag = tag;
    write = write_message w N.fns.encode tag;
    handler = on_message w N.fns.decode (store set);
    accepting = case_at (tag / 8) tag (on_message w N.fns.decode (store set));
    key = key;
    read = message_of N.fns.from_json key;
    entry = message_entry N.fns.to_json key;
    value = message_value N.fns.to_json;
    convert = map_option N.fns.from_partial;
    embed = map_option N.embed;
    encodes = λ cs chosen m v valid starts.
        subst
          (λ n. Encodes w cs (write_message w N.fns.encode tag v) n (set m (map_option N.normal v)))
          starts
          (Encodes-message_as w L cs N.fns.encode N.fns.decode tag (store set) small chosen N.normal
            (set m) (keeps m) v (nested-AllOption N v valid));
    forward = on_message-Forward w L N.fns.decode N.ends (store set);
    is_entry = message_entry-IsEntry N.fns.to_json key;
    reads = λ R o v valid h _. message_of-normal N R key o v valid h;
    convert-embed = map_option-normal N;
  }

  -- A field that holds messages.
  abbrev pub messages_row :
      (get : M → List V) (set : M → List V → M)
      → ((m : M) (a : List V) (b : V) → push get set (set m a) b ≡ set m (a ++ b ∷ []))
      → (P → Option (List PV))
      → Row w rt M P
  messages_row get set keeps pget = record {
    A = List V;
    PA = Option (List PV);
    get = get;
    put = set;
    pget = pget;
    default = [];
    norm = map N.normal;
    IsValid = All (IsNested N);
    tag = tag;
    write = write_messages w N.fns.encode tag;
    handler = on_message w N.fns.decode (push get set);
    accepting = case_at (tag / 8) tag (on_message w N.fns.decode (push get set));
    key = key;
    read = messages_of N.fns.from_json key;
    entry = array_entry N.fns.to_json key;
    value = array_value N.fns.to_json;
    convert = map_or_empty N.fns.from_partial;
    embed = λ vs. some (map N.embed vs);
    encodes = λ cs chosen m v valid starts.
        subst (λ n. Encodes w cs (write_messages w N.fns.encode tag v) n (set m (map N.normal v)))
          starts
          (Encodes-messages_as w L cs N.fns.encode N.fns.decode tag (push get set) small chosen
            N.normal (set m) (keeps m) v (nested-All N v valid));
    forward = on_message-Forward w L N.fns.decode N.ends (push get set);
    is_entry = array_entry-IsEntry N.fns.to_json key;
    reads = λ R o v valid _ h. messages_of-normal N R key o v valid h;
    convert-embed = map_or_empty-normal N;
  }
