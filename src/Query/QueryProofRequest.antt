-- ===== src/Query/QueryProofRequest.antt =====
-- QueryProofRequest of gen/ts/galactica/merkle/query.ts: the request of Query.Proof.
pub mod Laws
use merkle_proof_service.Prelude.{String, Option, none, some, List, [], ◌∷◌}
use merkle_proof_service.Wire.Binary.{Outcome, ok, ◌>>=◌, Wire, Writer}
use merkle_proof_service.Wire.Loop.{
  ◌▸◌, write_string, Case, case_at, Decoder, decode_with, on_string,
}
use merkle_proof_service.Json.Value.{Value, number, Runtime}
use merkle_proof_service.Json.Convert.{string_of, string_entry, build, or_else}
use merkle_proof_service.Message.Fns.{MessageFns}

pub record QueryProofRequest : Type 0 where
  pub registry : String
  pub leaf : String

-- DeepPartial<QueryProofRequest>: `none` for a property that is missing or null.
pub record QueryProofRequestPartial : Type 0 where
  pub registry : Option String
  pub leaf : Option String

-- createBaseQueryProofRequest
abbrev pub base : QueryProofRequest
base = record { registry = ""; leaf = "" }

unfoldable pub encode : Wire → QueryProofRequest → Writer → Writer
encode w message = write_string w 10 message.registry ▸ write_string w 18 message.leaf

abbrev pub put_registry : QueryProofRequest → String → QueryProofRequest
put_registry m v = record m { registry = v }

abbrev pub put_leaf : QueryProofRequest → String → QueryProofRequest
put_leaf m v = record m { leaf = v }

-- The cases of the switch in `decode`.
abbrev pub cases : Wire → List (Case QueryProofRequest)
cases w = case_at 1 10 (on_string w put_registry) ∷ case_at 2 18 (on_string w put_leaf) ∷ []

unfoldable pub decode : Wire → Decoder QueryProofRequest
decode w = decode_with w (cases w) base

unfoldable pub from_json : Runtime → Value → Outcome QueryProofRequest
from_json rt json = do
  registry ← string_of rt "registry" json
  leaf ← string_of rt "leaf" json
  ok (record { registry = registry; leaf = leaf })

unfoldable pub to_json : QueryProofRequest → Value
to_json message =
    build (string_entry "registry" message.registry ∷ string_entry "leaf" message.leaf ∷ [])

unfoldable pub from_partial : QueryProofRequestPartial → QueryProofRequest
from_partial object = record {
  registry = or_else object.registry "";
  leaf = or_else object.leaf "";
}

-- The partial message with no property.
abbrev pub empty : QueryProofRequestPartial
empty = record { registry = none; leaf = none }

-- create(base?): `base ?? {}`
unfoldable pub create : Option QueryProofRequestPartial → QueryProofRequest
unfolding or_else
create object = from_partial (or_else object empty)

-- A message is a partial message.
unfoldable pub embed : QueryProofRequest → QueryProofRequestPartial
embed m = record { registry = some m.registry; leaf = some m.leaf }

abbrev pub fns : Wire → Runtime → MessageFns QueryProofRequest QueryProofRequestPartial
fns w rt = record {
  encode = encode w;
  decode = decode w;
  from_json = from_json rt;
  to_json = to_json;
  create = create;
  from_partial = from_partial;
}
