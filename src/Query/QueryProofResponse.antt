-- ===== src/Query/QueryProofResponse.antt =====
-- QueryProofResponse of gen/ts/galactica/merkle/query.ts: the response of Query.Proof.
pub mod Laws
use merkle_proof_service.Query.Proof
use merkle_proof_service.Query.Proof.{Proof, ProofPartial}
use merkle_proof_service.Prelude.{Option, none, some, List, [], ◌∷◌}
use merkle_proof_service.Wire.Binary.{Outcome, ok, ◌>>=◌, Wire, Writer}
use merkle_proof_service.Wire.Loop.{write_message, Case, case_at, Decoder, decode_with, on_message}
use merkle_proof_service.Json.Value.{Value, number, Runtime}
use merkle_proof_service.Json.Convert.{message_of, message_entry, build, or_else, map_option}
use merkle_proof_service.Message.Fns.{MessageFns}

pub record QueryProofResponse : Type 0 where
  pub proof : Option Proof

-- DeepPartial<QueryProofResponse>: `none` for a property that is missing or null.
pub record QueryProofResponsePartial : Type 0 where
  pub proof : Option ProofPartial

-- createBaseQueryProofResponse
abbrev pub base : QueryProofResponse
base = record { proof = none }

unfoldable pub encode : Wire → QueryProofResponse → Writer → Writer
encode w message = write_message w (Proof.encode w) 10 message.proof

abbrev pub put_proof : QueryProofResponse → Proof → QueryProofResponse
put_proof m v = record m { proof = some v }

-- The cases of the switch in `decode`.
abbrev pub cases : Wire → List (Case QueryProofResponse)
cases w = case_at 1 10 (on_message w (Proof.decode w) put_proof) ∷ []

unfoldable pub decode : Wire → Decoder QueryProofResponse
decode w = decode_with w (cases w) base

unfoldable pub from_json : Runtime → Value → Outcome QueryProofResponse
from_json rt json = do
  proof ← message_of (Proof.from_json rt) "proof" json
  ok (record { proof = proof })

unfoldable pub to_json : QueryProofResponse → Value
to_json message = build (message_entry Proof.to_json "proof" message.proof ∷ [])

unfoldable pub from_partial : QueryProofResponsePartial → QueryProofResponse
from_partial object = record { proof = map_option Proof.from_partial object.proof }

-- The partial message with no property.
abbrev pub empty : QueryProofResponsePartial
empty = record { proof = none }

-- create(base?): `base ?? {}`
unfoldable pub create : Option QueryProofResponsePartial → QueryProofResponse
unfolding or_else
create object = from_partial (or_else object empty)

-- A message is a partial message.
unfoldable pub embed : QueryProofResponse → QueryProofResponsePartial
embed m = record { proof = map_option Proof.embed m.proof }

abbrev pub fns : Wire → Runtime → MessageFns QueryProofResponse QueryProofResponsePartial
fns w rt = record {
  encode = encode w;
  decode = decode w;
  from_json = from_json rt;
  to_json = to_json;
  create = create;
  from_partial = from_partial;
}
