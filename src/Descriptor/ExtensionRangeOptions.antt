-- ===== src/Descriptor/ExtensionRangeOptions.antt =====
-- ExtensionRangeOptions of gen/ts/google/protobuf/descriptor.ts.
pub mod Laws
use merkle_proof_service.Descriptor.ExtensionRangeOptionsDeclaration.{
  ExtensionRangeOptionsDeclaration, ExtensionRangeOptionsDeclarationPartial,
}
use merkle_proof_service.Descriptor.ExtensionRangeOptionsDeclaration
use merkle_proof_service.Descriptor.FeatureSet.{FeatureSet, FeatureSetPartial}
use merkle_proof_service.Descriptor.FeatureSet
use merkle_proof_service.Descriptor.UninterpretedOption.{
  UninterpretedOption, UninterpretedOptionPartial,
}
use merkle_proof_service.Descriptor.UninterpretedOption
use merkle_proof_service.Descriptor.Enums.ExtensionRangeOptionsVerificationState
use merkle_proof_service.Message.Statements.{
  ℤ, pos, Option, none, some, List, [], ◌∷◌, map, Outcome, ok, ◌>>=◌, Wire, Writer, ◌▸◌,
  write_message, write_messages, Case, case_at, Decoder, decode_with, on_message, Value, Runtime,
  message_of, messages_of, message_entry, array_entry, build, or_else, map_option, map_or_empty,
  MessageFns, member_type, write_present, on_scalar, present_of, present_entry, or_present, store,
  push,
}

pub record ExtensionRangeOptions : Type 0 where
  pub uninterpreted_option : List UninterpretedOption
  pub declaration : List ExtensionRangeOptionsDeclaration
  pub features : Option FeatureSet
  pub verification : Option ℤ

-- DeepPartial<ExtensionRangeOptions>: `none` for a property that is missing or null.
pub record ExtensionRangeOptionsPartial : Type 0 where
  pub uninterpreted_option : Option (List UninterpretedOptionPartial)
  pub declaration : Option (List ExtensionRangeOptionsDeclarationPartial)
  pub features : Option FeatureSetPartial
  pub verification : Option ℤ

-- createBaseExtensionRangeOptions
abbrev pub base : ExtensionRangeOptions
base = record {
  uninterpreted_option = [];
  declaration = [];
  features = none;
  verification = some (pos 1);
}

module _ (w : Wire) (rt : Runtime) where
  unfoldable pub encode : ExtensionRangeOptions → Writer → Writer
  encode message =
      write_messages w (UninterpretedOption.encode w rt) 7994 message.uninterpreted_option
      ▸ write_messages w (ExtensionRangeOptionsDeclaration.encode w rt) 18 message.declaration
      ▸ write_message w (FeatureSet.encode w rt) 402 message.features
      ▸ write_present w (member_type w rt ExtensionRangeOptionsVerificationState.fns 1) 24
          message.verification

  -- The cases of the switch in `decode`.
  abbrev pub cases : List (Case ExtensionRangeOptions)
  cases =
      case_at 999 7994 (
        on_message w (UninterpretedOption.decode w rt)
          (push (λ m. m.uninterpreted_option) (λ m v. record m { uninterpreted_option = v })))
      ∷ case_at 2 18 (
          on_message w (ExtensionRangeOptionsDeclaration.decode w rt)
            (push (λ m. m.declaration) (λ m v. record m { declaration = v })))
      ∷ case_at 50 402
          (on_message w (FeatureSet.decode w rt) (store (λ m v. record m { features = v })))
      ∷ case_at 3 24 (
          on_scalar (member_type w rt ExtensionRangeOptionsVerificationState.fns 1)
            (store (λ m v. record m { verification = v })))
      ∷ []

  unfoldable pub decode : Decoder ExtensionRangeOptions
  decode = decode_with w cases base

  unfoldable pub from_json : Value → Outcome ExtensionRangeOptions
  from_json json = do
    uninterpreted_option ←
        messages_of (UninterpretedOption.from_json w rt) "uninterpretedOption" json
    declaration ← messages_of (ExtensionRangeOptionsDeclaration.from_json w rt) "declaration" json
    features ← message_of (FeatureSet.from_json w rt) "features" json
    verification ←
        present_of (member_type w rt ExtensionRangeOptionsVerificationState.fns 1) "verification"
          json
    ok (record {
      uninterpreted_option = uninterpreted_option;
      declaration = declaration;
      features = features;
      verification = verification;
    })

  unfoldable pub to_json : ExtensionRangeOptions → Value
  to_json message = build (
      array_entry (UninterpretedOption.to_json w rt) "uninterpretedOption"
        message.uninterpreted_option
      ∷ array_entry (ExtensionRangeOptionsDeclaration.to_json w rt) "declaration"
          message.declaration
      ∷ message_entry (FeatureSet.to_json w rt) "features" message.features
      ∷ present_entry (member_type w rt ExtensionRangeOptionsVerificationState.fns 1) "verification"
          message.verification
      ∷ [])

unfoldable pub from_partial : ExtensionRangeOptionsPartial → ExtensionRangeOptions
from_partial object = record {
  uninterpreted_option = map_or_empty UninterpretedOption.from_partial object.uninterpreted_option;
  declaration = map_or_empty ExtensionRangeOptionsDeclaration.from_partial object.declaration;
  features = map_option FeatureSet.from_partial object.features;
  verification = or_present object.verification (pos 1);
}

-- The partial message with no property.
abbrev pub empty : ExtensionRangeOptionsPartial
empty = record {
  uninterpreted_option = none;
  declaration = none;
  features = none;
  verification = none;
}

-- create(base?): `base ?? {}`
unfoldable pub create : Option ExtensionRangeOptionsPartial → ExtensionRangeOptions
unfolding or_else
create object = from_partial (or_else object empty)

-- A message is a partial message.
unfoldable pub embed : ExtensionRangeOptions → ExtensionRangeOptionsPartial
embed m = record {
  uninterpreted_option = some (map UninterpretedOption.embed m.uninterpreted_option);
  declaration = some (map ExtensionRangeOptionsDeclaration.embed m.declaration);
  features = map_option FeatureSet.embed m.features;
  verification = m.verification;
}

abbrev pub fns : Wire → Runtime → MessageFns ExtensionRangeOptions ExtensionRangeOptionsPartial
fns w rt = record {
  encode = encode w rt;
  decode = decode w rt;
  from_json = from_json w rt;
  to_json = to_json w rt;
  create = create;
  from_partial = from_partial;
}
