-- ===== src/Query/GetEmptyLeafProofRequest.antt =====
-- GetEmptyLeafProofRequest of gen/ts/galactica/merkle/query.ts: the request of Query.GetEmptyLeafProof.
pub mod Laws
use merkle_proof_service.Prelude.{String, Option, none, some, List, [], ◌∷◌}
use merkle_proof_service.Wire.Binary.{Outcome, ok, ◌>>=◌, Wire, Writer}
use merkle_proof_service.Wire.Loop.{write_string, Case, case_at, Decoder, decode_with, on_string}
use merkle_proof_service.Json.Value.{Value, number, Runtime}
use merkle_proof_service.Json.Convert.{string_of, string_entry, build, or_else}
use merkle_proof_service.Message.Fns.{MessageFns}

pub record GetEmptyLeafProofRequest : Type 0 where
  pub registry : String

-- DeepPartial<GetEmptyLeafProofRequest>: `none` for a property that is missing or null.
pub record GetEmptyLeafProofRequestPartial : Type 0 where
  pub registry : Option String

-- createBaseGetEmptyLeafProofRequest
abbrev pub base : GetEmptyLeafProofRequest
base = record { registry = "" }

unfoldable pub encode : Wire → GetEmptyLeafProofRequest → Writer → Writer
encode w message = write_string w 10 message.registry

abbrev pub put_registry : GetEmptyLeafProofRequest → String → GetEmptyLeafProofRequest
put_registry m v = record m { registry = v }

-- The cases of the switch in `decode`.
abbrev pub cases : Wire → List (Case GetEmptyLeafProofRequest)
cases w = case_at 1 10 (on_string w put_registry) ∷ []

unfoldable pub decode : Wire → Decoder GetEmptyLeafProofRequest
decode w = decode_with w (cases w) base

unfoldable pub from_json : Runtime → Value → Outcome GetEmptyLeafProofRequest
from_json rt json = do registry ← string_of rt "registry" json; ok (record { registry = registry })

unfoldable pub to_json : GetEmptyLeafProofRequest → Value
to_json message = build (string_entry "registry" message.registry ∷ [])

unfoldable pub from_partial : GetEmptyLeafProofRequestPartial → GetEmptyLeafProofRequest
from_partial object = record { registry = or_else object.registry "" }

-- The partial message with no property.
abbrev pub empty : GetEmptyLeafProofRequestPartial
empty = record { registry = none }

-- create(base?): `base ?? {}`
unfoldable pub create : Option GetEmptyLeafProofRequestPartial → GetEmptyLeafProofRequest
unfolding or_else
create object = from_partial (or_else object empty)

-- A message is a partial message.
unfoldable pub embed : GetEmptyLeafProofRequest → GetEmptyLeafProofRequestPartial
embed m = record { registry = some m.registry }

abbrev pub fns :
    Wire → Runtime → MessageFns GetEmptyLeafProofRequest GetEmptyLeafProofRequestPartial
fns w rt = record {
  encode = encode w;
  decode = decode w;
  from_json = from_json rt;
  to_json = to_json;
  create = create;
  from_partial = from_partial;
}
