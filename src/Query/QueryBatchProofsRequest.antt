-- ===== src/Query/QueryBatchProofsRequest.antt =====
-- QueryBatchProofsRequest of gen/ts/galactica/merkle/query.ts: the request of Query.GetBatchProofs.
pub mod Laws
use merkle_proof_service.Query.BatchOperation
use merkle_proof_service.Query.BatchOperation.{BatchOperation, BatchOperationPartial}
use merkle_proof_service.Prelude.{String, Option, none, some, List, [], ◌∷◌, ◌++◌, map}
use merkle_proof_service.Wire.Binary.{Outcome, ok, ◌>>=◌, Wire, Writer}
use merkle_proof_service.Wire.Loop.{
  ◌▸◌, write_string, write_messages, Case, case_at, Decoder, decode_with, on_string, on_message,
}
use merkle_proof_service.Json.Value.{Value, number, Runtime}
use merkle_proof_service.Json.Convert.{
  string_of, messages_of, string_entry, array_entry, build, or_else, map_or_empty,
}
use merkle_proof_service.Message.Fns.{MessageFns}

pub record QueryBatchProofsRequest : Type 0 where
  pub registry : String
  pub operations : List BatchOperation

-- DeepPartial<QueryBatchProofsRequest>: `none` for a property that is missing or null.
pub record QueryBatchProofsRequestPartial : Type 0 where
  pub registry : Option String
  pub operations : Option (List BatchOperationPartial)

-- createBaseQueryBatchProofsRequest
abbrev pub base : QueryBatchProofsRequest
base = record { registry = ""; operations = [] }

unfoldable pub encode : Wire → QueryBatchProofsRequest → Writer → Writer
encode w message =
    write_string w 10 message.registry
    ▸ write_messages w (BatchOperation.encode w) 18 message.operations

abbrev pub put_registry : QueryBatchProofsRequest → String → QueryBatchProofsRequest
put_registry m v = record m { registry = v }

abbrev pub put_operations : QueryBatchProofsRequest → BatchOperation → QueryBatchProofsRequest
put_operations m v = record m { operations = m.operations ++ v ∷ [] }

-- The cases of the switch in `decode`.
abbrev pub cases : Wire → List (Case QueryBatchProofsRequest)
cases w =
    case_at 1 10 (on_string w put_registry)
    ∷ case_at 2 18 (on_message w (BatchOperation.decode w) put_operations)
    ∷ []

unfoldable pub decode : Wire → Decoder QueryBatchProofsRequest
decode w = decode_with w (cases w) base

unfoldable pub from_json : Runtime → Value → Outcome QueryBatchProofsRequest
from_json rt json = do
  registry ← string_of rt "registry" json
  operations ← messages_of (BatchOperation.from_json rt) "operations" json
  ok (record { registry = registry; operations = operations })

unfoldable pub to_json : QueryBatchProofsRequest → Value
to_json message = build (
    string_entry "registry" message.registry
    ∷ array_entry BatchOperation.to_json "operations" message.operations
    ∷ [])

unfoldable pub from_partial : QueryBatchProofsRequestPartial → QueryBatchProofsRequest
from_partial object = record {
  registry = or_else object.registry "";
  operations = map_or_empty BatchOperation.from_partial object.operations;
}

-- The partial message with no property.
abbrev pub empty : QueryBatchProofsRequestPartial
empty = record { registry = none; operations = none }

-- create(base?): `base ?? {}`
unfoldable pub create : Option QueryBatchProofsRequestPartial → QueryBatchProofsRequest
unfolding or_else
create object = from_partial (or_else object empty)

-- A message is a partial message.
unfoldable pub embed : QueryBatchProofsRequest → QueryBatchProofsRequestPartial
embed m = record {
  registry = some m.registry;
  operations = some (map BatchOperation.embed m.operations);
}

abbrev pub fns : Wire → Runtime → MessageFns QueryBatchProofsRequest QueryBatchProofsRequestPartial
fns w rt = record {
  encode = encode w;
  decode = decode w;
  from_json = from_json rt;
  to_json = to_json;
  create = create;
  from_partial = from_partial;
}
