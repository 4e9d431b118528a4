-- ===== src/Query/BatchOperation.antt =====
-- BatchOperation of gen/ts/galactica/merkle/query.ts: one addition or revocation of a batch.
pub mod Laws
use merkle_proof_service.Prelude.{String, Bool, false, Option, none, some, List, [], ◌∷◌}
use merkle_proof_service.Wire.Binary.{Outcome, ok, ◌>>=◌, Wire, Writer}
use merkle_proof_service.Wire.Loop.{
  ◌▸◌, write_string, write_bool, Case, case_at, Decoder, decode_with, on_string, on_bool,
}
use merkle_proof_service.Json.Value.{Value, number, Runtime}
use merkle_proof_service.Json.Convert.{string_of, flag_of, string_entry, flag_entry, build, or_else}
use merkle_proof_service.Message.Fns.{MessageFns}

pub record BatchOperation : Type 0 where
  pub leaf_hash : String
  pub is_addition : Bool

-- DeepPartial<BatchOperation>: `none` for a property that is missing or null.
pub record BatchOperationPartial : Type 0 where
  pub leaf_hash : Option String
  pub is_addition : Option Bool

-- createBaseBatchOperation
abbrev pub base : BatchOperation
base = record { leaf_hash = ""; is_addition = false }

unfoldable pub encode : Wire → BatchOperation → Writer → Writer
encode w message = write_string w 10 message.leaf_hash ▸ write_bool w 16 message.is_addition

abbrev pub put_leaf_hash : BatchOperation → String → BatchOperation
put_leaf_hash m v = record m { leaf_hash = v }

abbrev pub put_is_addition : BatchOperation → Bool → BatchOperation
put_is_addition m v = record m { is_addition = v }

-- The cases of the switch in `decode`.
abbrev pub cases : Wire → List (Case BatchOperation)
cases w = case_at 1 10 (on_string w put_leaf_hash) ∷ case_at 2 16 (on_bool w put_is_addition) ∷ []

unfoldable pub decode : Wire → Decoder BatchOperation
decode w = decode_with w (cases w) base

unfoldable pub from_json : Runtime → Value → Outcome BatchOperation
from_json rt json = do
  leaf_hash ← string_of rt "leafHash" json
  is_addition ← flag_of "isAddition" json
  ok (record { leaf_hash = leaf_hash; is_addition = is_addition })

unfoldable pub to_json : BatchOperation → Value
to_json message =
    build
      (string_entry "leafHash" message.leaf_hash ∷ flag_entry "isAddition" message.is_addition ∷ [])

unfoldable pub from_partial : BatchOperationPartial → BatchOperation
from_partial object = record {
  leaf_hash = or_else object.leaf_hash "";
  is_addition = or_else object.is_addition false;
}

-- The partial message with no property.
abbrev pub empty : BatchOperationPartial
empty = record { leaf_hash = none; is_addition = none }

-- create(base?): `base ?? {}`
unfoldable pub create : Option BatchOperationPartial → BatchOperation
unfolding or_else
create object = from_partial (or_else object empty)

-- A message is a partial message.
unfoldable pub embed : BatchOperation → BatchOperationPartial
embed m = record { leaf_hash = some m.leaf_hash; is_addition = some m.is_addition }

abbrev pub fns : Wire → Runtime → MessageFns BatchOperation BatchOperationPartial
fns w rt = record {
  encode = encode w;
  decode = decode w;
  from_json = from_json rt;
  to_json = to_json;
  create = create;
  from_partial = from_partial;
}
