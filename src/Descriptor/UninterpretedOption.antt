-- ===== src/Descriptor/UninterpretedOption.antt =====
-- UninterpretedOption of gen/ts/google/protobuf/descriptor.ts.
pub mod Laws
use merkle_proof_service.Descriptor.UninterpretedOptionNamePart.{
  UninterpretedOptionNamePart, UninterpretedOptionNamePartPartial,
}
use merkle_proof_service.Descriptor.UninterpretedOptionNamePart
use merkle_proof_service.Message.Statements.{
  ℕ, ℤ, pos, String, Option, none, some, List, [], ◌∷◌, map, Bytes, Outcome, ok, ◌>>=◌, Wire,
  Writer, ◌▸◌, write_messages, Case, case_at, Decoder, decode_with, on_message, Value, Runtime,
  messages_of, array_entry, build, or_else, map_or_empty, MessageFns, string_type, uint64_type,
  int64_type, double_type, bytes_type, write_present, on_scalar, present_of, present_entry,
  or_present, store, push,
}

pub record UninterpretedOption : Type 0 where
  pub name : List UninterpretedOptionNamePart
  pub identifier_value : Option String
  pub positive_int_value : Option ℕ
  pub negative_int_value : Option ℤ
  pub double_value : Option ℤ
  pub string_value : Option Bytes
  pub aggregate_value : Option String

-- DeepPartial<UninterpretedOption>: `none` for a property that is missing or null.
pub record UninterpretedOptionPartial : Type 0 where
  pub name : Option (List UninterpretedOptionNamePartPartial)
  pub identifier_value : Option String
  pub positive_int_value : Option ℕ
  pub negative_int_value : Option ℤ
  pub double_value : Option ℤ
  pub string_value : Option Bytes
  pub aggregate_value : Option String

-- createBaseUninterpretedOption
abbrev pub base : UninterpretedOption
base = record {
  name = [];
  identifier_value = some "";
  positive_int_value = some 0;
  negative_int_value = some (pos 0);
  double_value = some (pos 0);
  string_value = some [];
  aggregate_value = some "";
}

module _ (w : Wire) (rt : Runtime) where
  unfoldable pub encode : UninterpretedOption → Writer → Writer
  encode message =
      write_messages w (UninterpretedOptionNamePart.encode w rt) 18 message.name
      ▸ write_present w (string_type w rt) 26 message.identifier_value
      ▸ write_present w (uint64_type w rt) 32 message.positive_int_value
      ▸ write_present w (int64_type w rt) 40 message.negative_int_value
      ▸ write_present w (double_type w rt) 49 message.double_value
      ▸ write_present w (bytes_type w rt) 58 message.string_value
      ▸ write_present w (string_type w rt) 66 message.aggregate_value

  -- The cases of the switch in `decode`.
  abbrev pub cases : List (Case UninterpretedOption)
  cases =
      case_at 2 18 (
        on_message w (UninterpretedOptionNamePart.decode w rt)
          (push (λ m. m.name) (λ m v. record m { name = v })))
      ∷ case_at 3 26
          (on_scalar (string_type w rt) (store (λ m v. record m { identifier_value = v })))
      ∷ case_at 4 32
          (on_scalar (uint64_type w rt) (store (λ m v. record m { positive_int_value = v })))
      ∷ case_at 5 40
          (on_scalar (int64_type w rt) (store (λ m v. record m { negative_int_value = v })))
      ∷ case_at 6 49 (on_scalar (double_type w rt) (store (λ m v. record m { double_value = v })))
      ∷ case_at 7 58 (on_scalar (bytes_type w rt) (store (λ m v. record m { string_value = v })))
      ∷ case_at 8 66
          (on_scalar (string_type w rt) (store (λ m v. record m { aggregate_value = v })))
      ∷ []

  unfoldable pub decode : Decoder UninterpretedOption
  decode = decode_with w cases base

  unfoldable pub from_json : Value → Outcome UninterpretedOption
  from_json json = do
    name ← messages_of (UninterpretedOptionNamePart.from_json w rt) "name" json
    identifier_value ← present_of (string_type w rt) "identifierValue" json
    positive_int_value ← present_of (uint64_type w rt) "positiveIntValue" json
    negative_int_value ← present_of (int64_type w rt) "negativeIntValue" json
    double_value ← present_of (double_type w rt) "doubleValue" json
    string_value ← present_of (bytes_type w rt) "stringValue" json
    aggregate_value ← present_of (string_type w rt) "aggregateValue" json
    ok (record {
      name = name;
      identifier_value = identifier_value;
      positive_int_value = positive_int_value;
      negative_int_value = negative_int_value;
      double_value = double_value;
      string_value = string_value;
      aggregate_value = aggregate_value;
    })

  unfoldable pub to_json : UninterpretedOption → Value
  to_json message = build (
      array_entry (UninterpretedOptionNamePart.to_json w rt) "name" message.name
      ∷ present_entry (string_type w rt) "identifierValue" message.identifier_value
      ∷ present_entry (uint64_type w rt) "positiveIntValue" message.positive_int_value
      ∷ present_entry (int64_type w rt) "negativeIntValue" message.negative_int_value
      ∷ present_entry (double_type w rt) "doubleValue" message.double_value
      ∷ present_entry (bytes_type w rt) "stringValue" message.string_value
      ∷ present_entry (string_type w rt) "aggregateValue" message.aggregate_value
      ∷ [])

unfoldable pub from_partial : UninterpretedOptionPartial → UninterpretedOption
from_partial object = record {
  name = map_or_empty UninterpretedOptionNamePart.from_partial object.name;
  identifier_value = or_present object.identifier_value "";
  positive_int_value = or_present object.positive_int_value 0;
  negative_int_value = or_present object.negative_int_value (pos 0);
  double_value = or_present object.double_value (pos 0);
  string_value = or_present object.string_value [];
  aggregate_value = or_present object.aggregate_value "";
}

-- The partial message with no property.
abbrev pub empty : UninterpretedOptionPartial
empty = record {
  name = none;
  identifier_value = none;
  positive_int_value = none;
  negative_int_value = none;
  double_value = none;
  string_value = none;
  aggregate_value = none;
}

-- create(base?): `base ?? {}`
unfoldable pub create : Option UninterpretedOptionPartial → UninterpretedOption
unfolding or_else
create object = from_partial (or_else object empty)

-- A message is a partial message.
unfoldable pub embed : UninterpretedOption → UninterpretedOptionPartial
embed m = record {
  name = some (map UninterpretedOptionNamePart.embed m.name);
  identifier_value = m.identifier_value;
  positive_int_value = m.positive_int_value;
  negative_int_value = m.negative_int_value;
  double_value = m.double_value;
  string_value = m.string_value;
  aggregate_value = m.aggregate_value;
}

abbrev pub fns : Wire → Runtime → MessageFns UninterpretedOption UninterpretedOptionPartial
fns w rt = record {
  encode = encode w rt;
  decode = decode w rt;
  from_json = from_json w rt;
  to_json = to_json w rt;
  create = create;
  from_partial = from_partial;
}
