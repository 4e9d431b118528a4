-- ===== src/Descriptor/OneofOptions.antt =====
-- OneofOptions of gen/ts/google/protobuf/descriptor.ts.
pub mod Laws
use merkle_proof_service.Descriptor.FeatureSet.{FeatureSet, FeatureSetPartial}
use merkle_proof_service.Descriptor.FeatureSet
use merkle_proof_service.Descriptor.UninterpretedOption.{
  UninterpretedOption, UninterpretedOptionPartial,
}
use merkle_proof_service.Descriptor.UninterpretedOption
use merkle_proof_service.Message.Statements.{
  Option, none, some, List, [], ◌∷◌, map, Outcome, ok, ◌>>=◌, Wire, Writer, ◌▸◌, write_message,
  write_messages, Case, case_at, Decoder, decode_with, on_message, Value, Runtime, message_of,
  messages_of, message_entry, array_entry, build, or_else, map_option, map_or_empty, MessageFns,
  store, push,
}

pub record OneofOptions : Type 0 where
  pub features : Option FeatureSet
  pub uninterpreted_option : List UninterpretedOption

-- DeepPartial<OneofOptions>: `none` for a property that is missing or null.
pub record OneofOptionsPartial : Type 0 where
  pub features : Option FeatureSetPartial
  pub uninterpreted_option : Option (List UninterpretedOptionPartial)

-- createBaseOneofOptions
abbrev pub base : OneofOptions
base = record { features = none; uninterpreted_option = [] }

module _ (w : Wire) (rt : Runtime) where
  unfoldable pub encode : OneofOptions → Writer → Writer
  encode message =
      write_message w (FeatureSet.encode w rt) 10 message.features
      ▸ write_messages w (UninterpretedOption.encode w rt) 7994 message.uninterpreted_option

  -- The cases of the switch in `decode`.
  abbrev pub cases : List (Case OneofOptions)
  cases =
      case_at 1 10
        (on_message w (FeatureSet.decode w rt) (store (λ m v. record m { features = v })))
      ∷ case_at 999 7994 (
          on_message w (UninterpretedOption.decode w rt)
            (push (λ m. m.uninterpreted_option) (λ m v. record m { uninterpreted_option = v })))
      ∷ []

  unfoldable pub decode : Decoder OneofOptions
  decode = decode_with w cases base

  unfoldable pub from_json : Value → Outcome OneofOptions
  from_json json = do
    features ← message_of (FeatureSet.from_json w rt) "features" json
    uninterpreted_option ←
        messages_of (UninterpretedOption.from_json w rt) "uninterpretedOption" json
    ok (record { features = features; uninterpreted_option = uninterpreted_option })

  unfoldable pub to_json : OneofOptions → Value
  to_json message = build (
      message_entry (FeatureSet.to_json w rt) "features" message.features
      ∷ array_entry (UninterpretedOption.to_json w rt) "uninterpretedOption"
          message.uninterpreted_option
      ∷ [])

unfoldable pub from_partial : OneofOptionsPartial → OneofOptions
from_partial object = record {
  features = map_option FeatureSet.from_partial object.features;
  uninterpreted_option = map_or_empty UninterpretedOption.from_partial object.uninterpreted_option;
}

-- The partial message with no property.
abbrev pub empty : OneofOptionsPartial
empty = record { features = none; uninterpreted_option = none }

-- create(base?): `base ?? {}`
unfoldable pub create : Option OneofOptionsPartial → OneofOptions
unfolding or_else
create object = from_partial (or_else object empty)

-- A message is a partial message.
unfoldable pub embed : OneofOptions → OneofOptionsPartial
embed m = record {
  features = map_option FeatureSet.embed m.features;
  uninterpreted_option = some (map UninterpretedOption.embed m.uninterpreted_option);
}

abbrev pub fns : Wire → Runtime → MessageFns OneofOptions OneofOptionsPartial
fns w rt = record {
  encode = encode w rt;
  decode = decode w rt;
  from_json = from_json w rt;
  to_json = to_json w rt;
  create = create;
  from_partial = from_partial;
}
