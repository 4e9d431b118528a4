-- ===== src/Samples/Varint.antt =====
-- Numbers in groups of seven bits, lowest first: the encoding that the wire parameter stands for.
use merkle_proof_service.Prelude.{
  ℕ, zero, suc, ◌+◌, ◌-◌, ◌*◌, ◌/◌, ◌%◌, ◌≤◌, ◌<◌, ◌≡◌, refl, Option, none, some, List, [], ◌∷◌,
  ◌++◌, arith, inl, inr, ltb, if◌then◌else◌, Bool-cases, Option-cases, length, lt→ltb, ltb_false→le,
  le→ltb_false,
}

put_groups : ℕ → ℕ → List ℕ
put_groups zero v = v ∷ []
put_groups (suc k) v =
    let more = put_groups k (v / 128) in if ltb v 128 then v ∷ [] else (v % 128 + 128) ∷ more

unfoldable pub put_varint : ℕ → List ℕ
unfolding put_groups
put_varint v = put_groups v v

abbrev add_group : ℕ → Option (ℕ × List ℕ) → Option (ℕ × List ℕ)
add_group b none = none
add_group b (some (v, rest)) = some (b - 128 + 128 * v, rest)

unfoldable pub get_varint : List ℕ → Option (ℕ × List ℕ)
get_varint [] = none
get_varint (b ∷ bs) = if ltb b 128 then some (b, bs) else add_group b (get_varint bs)

get_varint-put_groups :
    (k v : ℕ) (more : List ℕ) → v ≤ k → get_varint (put_groups k v ++ more) ≡ some (v, more)
unfolding get_varint put_groups
get_varint-put_groups zero v more h = rw (lt→ltb v 128 (omega arith)) refl
get_varint-put_groups (suc k) v more h = elim (Bool-cases (ltb v 128)) [
  | inl e ↦ rw (e) (rw (e) refl)
  | inr e ↦ ground (
    arith,
    le→ltb_false (v % 128 + 128) 128 (omega arith),
    get_varint-put_groups k (v / 128) more (omega (arith, ltb_false→le v 128 e)),
  )
]

pub get_varint-put_varint :
    (v : ℕ) (more : List ℕ) → get_varint (put_varint v ++ more) ≡ some (v, more)
unfolding put_varint
get_varint-put_varint v more = get_varint-put_groups v v more (omega arith)

pub get_varint_takes :
    (b : List ℕ) (v : ℕ) (rest : List ℕ) → get_varint b ≡ some (v, rest) → length rest < length b
unfolding get_varint
get_varint_takes [] v rest h = cc
get_varint_takes (b ∷ bs) v rest h = elim (Option-cases (get_varint bs)) [
  | inl e ↦ ground arith
  | inr ((u, r), e) ↦ ground (arith, get_varint_takes bs u r e)
]
