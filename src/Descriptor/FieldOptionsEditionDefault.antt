-- ===== src/Descriptor/FieldOptionsEditionDefault.antt =====
-- FieldOptions_EditionDefault of gen/ts/google/protobuf/descriptor.ts.
pub mod Laws
use merkle_proof_service.Descriptor.Enums.Edition
use merkle_proof_service.Message.Statements.{
  ℤ, pos, String, Option, none, some, List, [], ◌∷◌, Outcome, ok, ◌>>=◌, Wire, Writer, ◌▸◌, Case,
  case_at, Decoder, decode_with, Value, Runtime, build, or_else, MessageFns, string_type,
  member_type, write_present, on_scalar, present_of, present_entry, or_present, store,
}

pub record FieldOptionsEditionDefault : Type 0 where
  pub edition : Option ℤ
  pub value : Option String

-- DeepPartial<FieldOptions_EditionDefault>: `none` for a property that is missing or null.
pub record FieldOptionsEditionDefaultPartial : Type 0 where
  pub edition : Option ℤ
  pub value : Option String

-- createBaseFieldOptions_EditionDefault
abbrev pub base : FieldOptionsEditionDefault
base = record { edition = some (pos 0); value = some "" }

module _ (w : Wire) (rt : Runtime) where
  unfoldable pub encode : FieldOptionsEditionDefault → Writer → Writer
  encode message =
      write_present w (member_type w rt Edition.fns 0) 24 message.edition
      ▸ write_present w (string_type w rt) 18 message.value

  -- The cases of the switch in `decode`.
  abbrev pub cases : List (Case FieldOptionsEditionDefault)
  cases =
      case_at 3 24
        (on_scalar (member_type w rt Edition.fns 0) (store (λ m v. record m { edition = v })))
      ∷ case_at 2 18 (on_scalar (string_type w rt) (store (λ m v. record m { value = v })))
      ∷ []

  unfoldable pub decode : Decoder FieldOptionsEditionDefault
  decode = decode_with w cases base

  unfoldable pub from_json : Value → Outcome FieldOptionsEditionDefault
  from_json json = do
    edition ← present_of (member_type w rt Edition.fns 0) "edition" json
    value ← present_of (string_type w rt) "value" json
    ok (record { edition = edition; value = value })

  unfoldable pub to_json : FieldOptionsEditionDefault → Value
  to_json message = build (
      present_entry (member_type w rt Edition.fns 0) "edition" message.edition
      ∷ present_entry (string_type w rt) "value" message.value
      ∷ [])

unfoldable pub from_partial : FieldOptionsEditionDefaultPartial → FieldOptionsEditionDefault
from_partial object = record {
  edition = or_present object.edition (pos 0);
  value = or_present object.value "";
}

-- The partial message with no property.
abbrev pub empty : FieldOptionsEditionDefaultPartial
empty = record { edition = none; value = none }

-- create(base?): `base ?? {}`
unfoldable pub create : Option FieldOptionsEditionDefaultPartial → FieldOptionsEditionDefault
unfolding or_else
create object = from_partial (or_else object empty)

-- A message is a partial message.
unfoldable pub embed : FieldOptionsEditionDefault → FieldOptionsEditionDefaultPartial
embed m = record { edition = m.edition; value = m.value }

abbrev pub fns :
    Wire → Runtime → MessageFns FieldOptionsEditionDefault FieldOptionsEditionDefaultPartial
fns w rt = record {
  encode = encode w rt;
  decode = decode w rt;
  from_json = from_json w rt;
  to_json = to_json w rt;
  create = create;
  from_partial = from_partial;
}
