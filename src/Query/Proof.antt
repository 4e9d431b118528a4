-- ===== src/Query/Proof.antt =====
-- Proof of gen/ts/galactica/merkle/query.ts: a Merkle proof, its hashes as decimal text.
pub mod Laws
use merkle_proof_service.Prelude.{ℕ, String, Option, none, some, List, [], ◌∷◌, ◌++◌}
use merkle_proof_service.Wire.Binary.{Outcome, ok, ◌>>=◌, Wire, Writer}
use merkle_proof_service.Wire.Loop.{
  ◌▸◌, write_string, write_uint32, write_strings, Case, case_at, Decoder, decode_with, on_string,
  on_uint32,
}
use merkle_proof_service.Json.Value.{string, Value, number, Runtime}
use merkle_proof_service.Json.Convert.{
  string_of, number_of, strings_of, string_entry, number_entry, array_entry, build, or_else,
  map_or_empty,
}
use merkle_proof_service.Message.Fns.{MessageFns}

pub record Proof : Type 0 where
  pub leaf : String
  pub path : List String
  pub index : ℕ
  pub root : String

-- DeepPartial<Proof>: `none` for a property that is missing or null.
pub record ProofPartial : Type 0 where
  pub leaf : Option String
  pub path : Option (List String)
  pub index : Option ℕ
  pub root : Option String

-- createBaseProof
abbrev pub base : Proof
base = record { leaf = ""; path = []; index = 0; root = "" }

unfoldable pub encode : Wire → Proof → Writer → Writer
encode w message =
    write_string w 10 message.leaf
    ▸ write_strings w 18 message.path
    ▸ write_uint32 w 24 message.index
    ▸ write_string w 34 message.root

abbrev pub put_leaf : Proof → String → Proof
put_leaf m v = record m { leaf = v }

abbrev pub put_path : Proof → String → Proof
put_path m v = record m { path = m.path ++ v ∷ [] }

abbrev pub put_index : Proof → ℕ → Proof
put_index m v = record m { index = v }

abbrev pub put_root : Proof → String → Proof
put_root m v = record m { root = v }

-- The cases of the switch in `decode`.
abbrev pub cases : Wire → List (Case Proof)
cases w =
    case_at 1 10 (on_string w put_leaf)
    ∷ case_at 2 18 (on_string w put_path)
    ∷ case_at 3 24 (on_uint32 w put_index)
    ∷ case_at 4 34 (on_string w put_root)
    ∷ []

unfoldable pub decode : Wire → Decoder Proof
decode w = decode_with w (cases w) base

unfoldable pub from_json : Runtime → Value → Outcome Proof
from_json rt json = do
  leaf ← string_of rt "leaf" json
  let path = strings_of rt "path" json
  index ← number_of rt "index" json
  root ← string_of rt "root" json
  ok (record { leaf = leaf; path = path; index = index; root = root })

unfoldable pub to_json : Proof → Value
to_json message = build (
    string_entry "leaf" message.leaf
    ∷ array_entry string "path" message.path
    ∷ number_entry "index" message.index
    ∷ string_entry "root" message.root
    ∷ [])

unfoldable pub from_partial : ProofPartial → Proof
from_partial object = record {
  leaf = or_else object.leaf "";
  path = map_or_empty (λ e. e) object.path;
  index = or_else object.index 0;
  root = or_else object.root "";
}

-- The partial message with no property.
abbrev pub empty : ProofPartial
empty = record { leaf = none; path = none; index = none; root = none }

-- create(base?): `base ?? {}`
unfoldable pub create : Option ProofPartial → Proof
unfolding or_else
create object = from_partial (or_else object empty)

-- A message is a partial message.
unfoldable pub embed : Proof → ProofPartial
embed m = record {
  leaf = some m.leaf;
  path = some m.path;
  index = some m.index;
  root = some m.root;
}

abbrev pub fns : Wire → Runtime → MessageFns Proof ProofPartial
fns w rt = record {
  encode = encode w;
  decode = decode w;
  from_json = from_json rt;
  to_json = to_json;
  create = create;
  from_partial = from_partial;
}
