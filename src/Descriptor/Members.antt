-- ===== src/Descriptor/Members.antt =====
-- The enum values that `fromJSON` of FeatureSet, of gen/ts/google/protobuf/descriptor.ts, gives.
use merkle_proof_service.Descriptor.FeatureSet.{FeatureSet, from_json}
use merkle_proof_service.Descriptor.Enums.FeatureSetFieldPresence
use merkle_proof_service.Descriptor.Enums.FeatureSetEnumType
use merkle_proof_service.Descriptor.Enums.FeatureSetRepeatedFieldEncoding
use merkle_proof_service.Descriptor.Enums.FeatureSetUtf8Validation
use merkle_proof_service.Descriptor.Enums.FeatureSetMessageEncoding
use merkle_proof_service.Descriptor.Enums.FeatureSetJsonFormat
use merkle_proof_service.Descriptor.Enums.FeatureSetEnforceNamingStyle
use merkle_proof_service.Descriptor.Enums.FeatureSetVisibilityFeatureDefaultSymbolVisibility
use merkle_proof_service.Prelude.{
  ℕ, ℤ, pos, ◌≡◌, refl, subst, String, Option, none, some, inl, inr, Bool-cases,
}
use merkle_proof_service.Wire.Binary.{Wire, Outcome, ok, throw, stuck, ◌>>=◌}
use merkle_proof_service.Json.Value.{Value, property, is_set, Runtime}
use merkle_proof_service.Json.Enum.{EnumFns}
use merkle_proof_service.Message.Scalar.{number_of_member, member_type, present_of}

-- The value of an outcome, if it has one.
abbrev pub Returns : {A : Type 0} → (A → Type 0) → Outcome A → Type 0
Returns P (ok a) = P a
Returns P throw = Unit
Returns P stuck = Unit

Returns-bind :
    {A B : Type 0} (P : A → Type 0) (Q : B → Type 0) (o : Outcome A) (f : A → Outcome B)
    → Returns P o
    → ((a : A) → P a → Returns Q (f a))
    → Returns Q (o >>= f)
Returns-bind P Q (ok a) f h k = k a h
Returns-bind P Q throw f h k = tt
Returns-bind P Q stuck f h k = tt

-- A field that is set, to the number of a member of the enum, UNRECOGNIZED being -1.
abbrev pub IsNumbered : {E : Type 0} → EnumFns E → Option ℤ → Type 0
IsNumbered fns none = ⊥
IsNumbered {E} fns (some z) = (e : E) × (number_of_member fns e ≡ z)

present_of-IsNumbered :
    (w : Wire) (rt : Runtime) {E : Type 0} (fns : EnumFns E) (d : ℕ) (key : String) (o : Value)
    → IsNumbered fns (some (pos d))
    → Returns (IsNumbered fns) (present_of (member_type w rt fns d) key o)
unfolding present_of
present_of-IsNumbered w rt fns d key o default =
    Returns-bind (λ v. Unit) (IsNumbered fns) (property key o) _ (any (property key o))
      (λ v _. elim (Bool-cases (is_set v)) [
        | inl e ↦ rw e (fns.from_json v, refl)
        | inr e ↦ rw e default
      ])
  where
    any : (p : Outcome Value) → Returns (λ v. Unit) p
    any (ok v) = tt
    any throw = tt
    any stuck = tt

-- All fields are set to numbers of members of their enums.
abbrev pub HasMembers : FeatureSet → Type 0
HasMembers m =
    IsNumbered FeatureSetFieldPresence.fns m.field_presence
    × IsNumbered FeatureSetEnumType.fns m.enum_type
    × IsNumbered FeatureSetRepeatedFieldEncoding.fns m.repeated_field_encoding
    × IsNumbered FeatureSetUtf8Validation.fns m.utf8_validation
    × IsNumbered FeatureSetMessageEncoding.fns m.message_encoding
    × IsNumbered FeatureSetJsonFormat.fns m.json_format
    × IsNumbered FeatureSetEnforceNamingStyle.fns m.enforce_naming_style
    × IsNumbered FeatureSetVisibilityFeatureDefaultSymbolVisibility.fns m.default_symbol_visibility

module _ (w : Wire) (rt : Runtime) (o : Value) where
  -- One field, and the rest of the fields.
  next :
      {E : Type 0} (fns : EnumFns E) (key : String) (f : Option ℤ → Outcome FeatureSet)
      → IsNumbered fns (some (pos 0))
      → ((v : Option ℤ) → IsNumbered fns v → Returns HasMembers (f v))
      → Returns HasMembers (present_of (member_type w rt fns 0) key o >>= f)
  next fns key f default k =
      Returns-bind (IsNumbered fns) HasMembers (present_of (member_type w rt fns 0) key o) f
        (present_of-IsNumbered w rt fns 0 key o default) k

  from_json-Returns : Returns HasMembers (from_json w rt o)
  unfolding from_json
  from_json-Returns =
      next FeatureSetFieldPresence.fns "fieldPresence" _
        (FeatureSetFieldPresence.field_presence_unknown, refl)
        (λ a pa.
          next FeatureSetEnumType.fns "enumType" _ (FeatureSetEnumType.enum_type_unknown, refl)
            (λ b pb.
              next FeatureSetRepeatedFieldEncoding.fns "repeatedFieldEncoding" _
                (FeatureSetRepeatedFieldEncoding.repeated_field_encoding_unknown, refl)
                (λ c pc.
                  next FeatureSetUtf8Validation.fns "utf8Validation" _
                    (FeatureSetUtf8Validation.utf8_validation_unknown, refl)
                    (λ d pd.
                      next FeatureSetMessageEncoding.fns "messageEncoding" _
                        (FeatureSetMessageEncoding.message_encoding_unknown, refl)
                        (λ e pe.
                          next FeatureSetJsonFormat.fns "jsonFormat" _
                            (FeatureSetJsonFormat.json_format_unknown, refl)
                            (λ f pf.
                              next FeatureSetEnforceNamingStyle.fns "enforceNamingStyle" _
                                (FeatureSetEnforceNamingStyle.enforce_naming_style_unknown, refl)
                                (λ g pg.
                                  next FeatureSetVisibilityFeatureDefaultSymbolVisibility.fns
                                    "defaultSymbolVisibility" _
                                    (
                                      FeatureSetVisibilityFeatureDefaultSymbolVisibility.default_symbol_visibility_unknown,
                                      refl,
                                    )
                                    (λ h ph. (pa, pb, pc, pd, pe, pf, pg, ph)))))))))

-- A message that `fromJSON` of FeatureSet returns, of any value of JSON, has in each field the number
-- of a member of the field's enum, -1 for UNRECOGNIZED, and no field is `undefined`.
pub from_json-HasMembers :
    (w : Wire) (rt : Runtime) (o : Value) (m : FeatureSet) → from_json w rt o ≡ ok m → HasMembers m
from_json-HasMembers w rt o m h = subst (Returns HasMembers) h (from_json-Returns w rt o)
