-- ===== src/Query/GetEmptyLeafProofResponse.antt =====
-- GetEmptyLeafProofResponse of gen/ts/galactica/merkle/query.ts: the response of Query.GetEmptyLeafProof.
pub mod Laws
use merkle_proof_service.Query.Proof
use merkle_proof_service.Query.Proof.{Proof, ProofPartial}
use merkle_proof_service.Prelude.{Option, none, some, List, [], ◌∷◌}
use merkle_proof_service.Wire.Binary.{Outcome, ok, ◌>>=◌, Wire, Writer}
use merkle_proof_service.Wire.Loop.{write_message, Case, case_at, Decoder, decode_with, on_message}
use merkle_proof_service.Json.Value.{Value, number, Runtime}
use merkle_proof_service.Json.Convert.{message_of, message_entry, build, or_else, map_option}
use merkle_proof_service.Message.Fns.{MessageFns}

pub record GetEmptyLeafProofResponse : Type 0 where
  pub proof : Option Proof

-- DeepPartial<GetEmptyLeafProofResponse>: `none` for a property that is missing or null.
pub record GetEmptyLeafProofResponsePartial : Type 0 where
  pub proof : Option ProofPartial

-- createBaseGetEmptyLeafProofResponse
abbrev pub base : GetEmptyLeafProofResponse
base = record { proof = none }

unfoldable pub encode : Wire → GetEmptyLeafProofResponse → Writer → Writer
encode w message = write_message w (Proof.encode w) 10 message.proof

abbrev pub put_proof : GetEmptyLeafProofResponse → Proof → GetEmptyLeafProofResponse
put_proof m v = record m { proof = some v }

-- The cases of the switch in `decode`.
abbrev pub cases : Wire → List (Case GetEmptyLeafProofResponse)
cases w = case_at 1 10 (on_message w (Proof.decode w) put_proof) ∷ []

unfoldable pub decode : Wire → Decoder GetEmptyLeafProofResponse
decode w = decode_with w (cases w) base

unfoldable pub from_json : Runtime → Value → Outcome GetEmptyLeafProofResponse
from_json rt json = do
  proof ← message_of (Proof.from_json rt) "proof" json
  ok (record { proof = proof })

unfoldable pub to_json : GetEmptyLeafProofResponse → Value
to_json message = build (message_entry Proof.to_json "proof" message.proof ∷ [])

unfoldable pub from_partial : GetEmptyLeafProofResponsePartial → GetEmptyLeafProofResponse
from_partial object = record { proof = map_option Proof.from_partial object.proof }

-- The partial message with no property.
abbrev pub empty : GetEmptyLeafProofResponsePartial
empty = record { proof = none }

-- create(base?): `base ?? {}`
unfoldable pub create : Option GetEmptyLeafProofResponsePartial → GetEmptyLeafProofResponse
unfolding or_else
create object = from_partial (or_else object empty)

-- A message is a partial message.
unfoldable pub embed : GetEmptyLeafProofResponse → GetEmptyLeafProofResponsePartial
embed m = record { proof = map_option Proof.embed m.proof }

abbrev pub fns :
    Wire → Runtime → MessageFns GetEmptyLeafProofResponse GetEmptyLeafProofResponsePartial
fns w rt = record {
  encode = encode w;
  decode = decode w;
  from_json = from_json rt;
  to_json = to_json;
  create = create;
  from_partial = from_partial;
}
