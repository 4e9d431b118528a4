-- ===== src/Descriptor/SourceCodeInfo.antt =====
-- SourceCodeInfo of gen/ts/google/protobuf/descriptor.ts.
pub mod Laws
use merkle_proof_service.Descriptor.SourceCodeInfoLocation.{
  SourceCodeInfoLocation, SourceCodeInfoLocationPartial,
}
use merkle_proof_service.Descriptor.SourceCodeInfoLocation
use merkle_proof_service.Message.Statements.{
  Option, none, some, List, [], ◌∷◌, map, Outcome, ok, ◌>>=◌, Wire, Writer, write_messages, Case,
  case_at, Decoder, decode_with, on_message, Value, Runtime, messages_of, array_entry, build,
  or_else, map_or_empty, MessageFns, push,
}

pub record SourceCodeInfo : Type 0 where
  pub location : List SourceCodeInfoLocation

-- DeepPartial<SourceCodeInfo>: `none` for a property that is missing or null.
pub record SourceCodeInfoPartial : Type 0 where
  pub location : Option (List SourceCodeInfoLocationPartial)

-- createBaseSourceCodeInfo
abbrev pub base : SourceCodeInfo
base = record { location = [] }

module _ (w : Wire) (rt : Runtime) where
  unfoldable pub encode : SourceCodeInfo → Writer → Writer
  encode message = write_messages w (SourceCodeInfoLocation.encode w rt) 10 message.location

  -- The cases of the switch in `decode`.
  abbrev pub cases : List (Case SourceCodeInfo)
  cases =
      case_at 1 10 (
        on_message w (SourceCodeInfoLocation.decode w rt)
          (push (λ m. m.location) (λ m v. record m { location = v })))
      ∷ []

  unfoldable pub decode : Decoder SourceCodeInfo
  decode = decode_with w cases base

  unfoldable pub from_json : Value → Outcome SourceCodeInfo
  from_json json = do
    location ← messages_of (SourceCodeInfoLocation.from_json w rt) "location" json
    ok (record { location = location })

  unfoldable pub to_json : SourceCodeInfo → Value
  to_json message =
      build (array_entry (SourceCodeInfoLocation.to_json w rt) "location" message.location ∷ [])

unfoldable pub from_partial : SourceCodeInfoPartial → SourceCodeInfo
from_partial object = record {
  location = map_or_empty SourceCodeInfoLocation.from_partial object.location;
}

-- The partial message with no property.
abbrev pub empty : SourceCodeInfoPartial
empty = record { location = none }

-- create(base?): `base ?? {}`
unfoldable pub create : Option SourceCodeInfoPartial → SourceCodeInfo
unfolding or_else
create object = from_partial (or_else object empty)

-- A message is a partial message.
unfoldable pub embed : SourceCodeInfo → SourceCodeInfoPartial
embed m = record { location = some (map SourceCodeInfoLocation.embed m.location) }

abbrev pub fns : Wire → Runtime → MessageFns SourceCodeInfo SourceCodeInfoPartial
fns w rt = record {
  encode = encode w rt;
  decode = decode w rt;
  from_json = from_json w rt;
  to_json = to_json w rt;
  create = create;
  from_partial = from_partial;
}
