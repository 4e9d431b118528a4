-- ===== src/Query/BatchProof.antt =====
-- BatchProof of gen/ts/galactica/merkle/query.ts: the proof of one operation of a batch.
pub mod Laws
use merkle_proof_service.Prelude.{ℕ, String, Option, none, some, List, [], ◌∷◌, ◌++◌}
use merkle_proof_service.Wire.Binary.{Outcome, ok, ◌>>=◌, Wire, Writer}
use merkle_proof_service.Wire.Loop.{
  ◌▸◌, write_uint32, write_strings, Case, case_at, Decoder, decode_with, on_string, on_uint32,
}
use merkle_proof_service.Json.Value.{string, Value, number, Runtime}
use merkle_proof_service.Json.Convert.{
  number_of, strings_of, number_entry, array_entry, build, or_else, map_or_empty,
}
use merkle_proof_service.Message.Fns.{MessageFns}

pub record BatchProof : Type 0 where
  pub index : ℕ
  pub path : List String

-- DeepPartial<BatchProof>: `none` for a property that is missing or null.
pub record BatchProofPartial : Type 0 where
  pub index : Option ℕ
  pub path : Option (List String)

-- createBaseBatchProof
abbrev pub base : BatchProof
base = record { index = 0; path = [] }

unfoldable pub encode : Wire → BatchProof → Writer → Writer
encode w message = write_uint32 w 8 message.index ▸ write_strings w 18 message.path

abbrev pub put_index : BatchProof → ℕ → BatchProof
put_index m v = record m { index = v }

abbrev pub put_path : BatchProof → String → BatchProof
put_path m v = record m { path = m.path ++ v ∷ [] }

-- The cases of the switch in `decode`.
abbrev pub cases : Wire → List (Case BatchProof)
cases w = case_at 1 8 (on_uint32 w put_index) ∷ case_at 2 18 (on_string w put_path) ∷ []

unfoldable pub decode : Wire → Decoder BatchProof
decode w = decode_with w (cases w) base

unfoldable pub from_json : Runtime → Value → Outcome BatchProof
from_json rt json = do
  index ← number_of rt "index" json
  let path = strings_of rt "path" json
  ok (record { index = index; path = path })

unfoldable pub to_json : BatchProof → Value
to_json message =
    build (number_entry "index" message.index ∷ array_entry string "path" message.path ∷ [])

unfoldable pub from_partial : BatchProofPartial → BatchProof
from_partial object = record {
  index = or_else object.index 0;
  path = map_or_empty (λ e. e) object.path;
}

-- The partial message with no property.
abbrev pub empty : BatchProofPartial
empty = record { index = none; path = none }

-- create(base?): `base ?? {}`
unfoldable pub create : Option BatchProofPartial → BatchProof
unfolding or_else
create object = from_partial (or_else object empty)

-- A message is a partial message.
unfoldable pub embed : BatchProof → BatchProofPartial
embed m = record { index = some m.index; path = some m.path }

abbrev pub fns : Wire → Runtime → MessageFns BatchProof BatchProofPartial
fns w rt = record {
  encode = encode w;
  decode = decode w;
  from_json = from_json rt;
  to_json = to_json;
  create = create;
  from_partial = from_partial;
}
