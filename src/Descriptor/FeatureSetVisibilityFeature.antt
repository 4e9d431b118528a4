-- ===== src/Descriptor/FeatureSetVisibilityFeature.antt =====
-- FeatureSet_VisibilityFeature of gen/ts/google/protobuf/descriptor.ts.
pub mod Laws
use merkle_proof_service.Message.Statements.{
  Option, List, [], Outcome, ok, Wire, Writer, Case, Decoder, decode_with, Value, Runtime, build,
  or_else, MessageFns,
}

pub record FeatureSetVisibilityFeature : Type 0 where

-- DeepPartial<FeatureSet_VisibilityFeature>: `none` for a property that is missing or null.
pub record FeatureSetVisibilityFeaturePartial : Type 0 where

-- createBaseFeatureSet_VisibilityFeature
abbrev pub base : FeatureSetVisibilityFeature
base = record {}

module _ (w : Wire) (rt : Runtime) where
  unfoldable pub encode : FeatureSetVisibilityFeature → Writer → Writer
  encode message writer = writer

  -- The cases of the switch in `decode`.
  abbrev pub cases : List (Case FeatureSetVisibilityFeature)
  cases = []

  unfoldable pub decode : Decoder FeatureSetVisibilityFeature
  decode = decode_with w cases base

  unfoldable pub from_json : Value → Outcome FeatureSetVisibilityFeature
  from_json json = ok base

  unfoldable pub to_json : FeatureSetVisibilityFeature → Value
  to_json message = build []

unfoldable pub from_partial : FeatureSetVisibilityFeaturePartial → FeatureSetVisibilityFeature
from_partial object = record {}

-- The partial message with no property.
abbrev pub empty : FeatureSetVisibilityFeaturePartial
empty = record {}

-- create(base?): `base ?? {}`
unfoldable pub create : Option FeatureSetVisibilityFeaturePartial → FeatureSetVisibilityFeature
unfolding or_else
create object = from_partial (or_else object empty)

-- A message is a partial message.
unfoldable pub embed : FeatureSetVisibilityFeature → FeatureSetVisibilityFeaturePartial
embed m = record {}

abbrev pub fns :
    Wire → Runtime → MessageFns FeatureSetVisibilityFeature FeatureSetVisibilityFeaturePartial
fns w rt = record {
  encode = encode w rt;
  decode = decode w rt;
  from_json = from_json w rt;
  to_json = to_json w rt;
  create = create;
  from_partial = from_partial;
}
