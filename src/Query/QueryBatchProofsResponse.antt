-- ===== src/Query/QueryBatchProofsResponse.antt =====
-- QueryBatchProofsResponse of gen/ts/galactica/merkle/query.ts: the response of Query.GetBatchProofs.
pub mod Laws
use merkle_proof_service.Query.BatchProof
use merkle_proof_service.Query.BatchProof.{BatchProof, BatchProofPartial}
use merkle_proof_service.Prelude.{String, Option, none, some, List, [], ◌∷◌, ◌++◌, map}
use merkle_proof_service.Wire.Binary.{Outcome, ok, ◌>>=◌, Wire, Writer}
use merkle_proof_service.Wire.Loop.{
  ◌▸◌, write_string, write_messages, Case, case_at, Decoder, decode_with, on_string, on_message,
}
use merkle_proof_service.Json.Value.{Value, number, Runtime}
use merkle_proof_service.Json.Convert.{
  string_of, messages_of, string_entry, array_entry, build, or_else, map_or_empty,
}
use merkle_proof_service.Message.Fns.{MessageFns}

pub record QueryBatchProofsResponse : Type 0 where
  pub initial_root : String
  pub proofs : List BatchProof

-- DeepPartial<QueryBatchProofsResponse>: `none` for a property that is missing or null.
pub record QueryBatchProofsResponsePartial : Type 0 where
  pub initial_root : Option String
  pub proofs : Option (List BatchProofPartial)

-- createBaseQueryBatchProofsResponse
abbrev pub base : QueryBatchProofsResponse
base = record { initial_root = ""; proofs = [] }

unfoldable pub encode : Wire → QueryBatchProofsResponse → Writer → Writer
encode w message =
    write_string w 10 message.initial_root
    ▸ write_messages w (BatchProof.encode w) 18 message.proofs

abbrev pub put_initial_root : QueryBatchProofsResponse → String → QueryBatchProofsResponse
put_initial_root m v = record m { initial_root = v }

abbrev pub put_proofs : QueryBatchProofsResponse → BatchProof → QueryBatchProofsResponse
put_proofs m v = record m { proofs = m.proofs ++ v ∷ [] }

-- The cases of the switch in `decode`.
abbrev pub cases : Wire → List (Case QueryBatchProofsResponse)
cases w =
    case_at 1 10 (on_string w put_initial_root)
    ∷ case_at 2 18 (on_message w (BatchProof.decode w) put_proofs)
    ∷ []

unfoldable pub decode : Wire → Decoder QueryBatchProofsResponse
decode w = decode_with w (cases w) base

unfoldable pub from_json : Runtime → Value → Outcome QueryBatchProofsResponse
from_json rt json = do
  initial_root ← string_of rt "initialRoot" json
  proofs ← messages_of (BatchProof.from_json rt) "proofs" json
  ok (record { initial_root = initial_root; proofs = proofs })

unfoldable pub to_json : QueryBatchProofsResponse → Value
to_json message = build (
    string_entry "initialRoot" message.initial_root
    ∷ array_entry BatchProof.to_json "proofs" message.proofs
    ∷ [])

unfoldable pub from_partial : QueryBatchProofsResponsePartial → QueryBatchProofsResponse
from_partial object = record {
  initial_root = or_else object.initial_root "";
  proofs = map_or_empty BatchProof.from_partial object.proofs;
}

-- The partial message with no property.
abbrev pub empty : QueryBatchProofsResponsePartial
empty = record { initial_root = none; proofs = none }

-- create(base?): `base ?? {}`
unfoldable pub create : Option QueryBatchProofsResponsePartial → QueryBatchProofsResponse
unfolding or_else
create object = from_partial (or_else object empty)

-- A message is a partial message.
unfoldable pub embed : QueryBatchProofsResponse → QueryBatchProofsResponsePartial
embed m = record {
  initial_root = some m.initial_root;
  proofs = some (map BatchProof.embed m.proofs);
}

abbrev pub fns :
    Wire → Runtime → MessageFns QueryBatchProofsResponse QueryBatchProofsResponsePartial
fns w rt = record {
  encode = encode w;
  decode = decode w;
  from_json = from_json rt;
  to_json = to_json;
  create = create;
  from_partial = from_partial;
}
