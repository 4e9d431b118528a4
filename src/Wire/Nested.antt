-- ===== src/Wire/Nested.antt =====
-- Messages in fields: `encode(v, writer.fork()).join()` and `T.decode(reader, length)`.
use native.Mathlib.Nat.{add_assoc}
use merkle_proof_service.Prelude.{
  ℕ, ◌+◌, ◌^◌, ◌<◌, ◌≡◌, refl, subst, Option, none, some, List, [], ◌∷◌, ◌++◌, append-nil,
  append_assoc, length, map, All, AllOption, length-append,
}
use merkle_proof_service.Wire.Binary.{Bytes, Wire, IsLawful, Writer, uint32, fork_join}
use merkle_proof_service.Wire.Loop.{
  Case, Decoder, switch, write_message, write_messages, on_message,
}
use merkle_proof_service.Json.Convert.{map_option}
use merkle_proof_service.Wire.Steps.{read-Takes}
use merkle_proof_service.Wire.Fields.{
  CodedAs, Encodes, Encodes-seq, Encodes-skip, Encodes-same, Encodes-tagged,
}

-- A message that can stand in a field: it is read as `n`, and its length fits the prefix.
pub record NestedAs {ℓ} {V : Type ℓ} (encode : V → Writer → Writer) (decode : Decoder V) (v n : V)
    : Type ℓ where
  pub coded : CodedAs encode decode v n
  pub fits : length (encode v []) < 2 ^ 32

module _ {ℓ κ} {M : Type ℓ} {V : Type κ} (w : Wire) (L : IsLawful w) (cs : List (Case M))
    (encode : V → Writer → Writer) (decode : Decoder V) (t : ℕ) (put : M → V → M)
    (small : t < 2 ^ 32) (chosen : switch t cs ≡ some (on_message w decode put)) where
  -- The statement for one nested message, and its case.
  Encodes-Nested :
      (v u : V)
      → NestedAs encode decode v u
      → (m n : M) → put m u ≡ n
      → Encodes w cs (λ writer. fork_join w (encode v) (uint32 w t writer)) m n
  unfolding fork_join uint32 on_message
  Encodes-Nested v u nested m n keeps =
      Encodes-same w cs (λ writer. rw (bare, L.delimit_lem) refl)
        (Encodes-tagged w L cs t (w.put_uint32 (length b) ++ b) (on_message w decode put) small
          chosen
          (λ p more.
            rw (append_assoc, length-append (w.put_uint32 (length b)) b, ← add_assoc)
              (rw
                (read-Takes w.get_uint32 (w.put_uint32 (length b)) (length b)
                  (λ r. L.get-put_uint32 (length b) r small_length) p (b ++ more))
                (rw (nested.coded.embedded (p + length (w.put_uint32 (length b))) more)
                  (rw keeps)))))
    where
      b : Bytes
      b = nested.coded.bytes

      bare : encode v [] ≡ b
      bare = nested.coded.appends []

      small_length : length b < 2 ^ 32
      small_length = rw bare at nested.fits

  -- Messages that are read as `normal` makes them.
  module _ (normal : V → V) where
    pub Encodes-message_as :
        (set : Option V → M)
        → ((a : Option V) (b : V) → put (set a) b ≡ set (some b))
        → (v : Option V) → AllOption (λ u. NestedAs encode decode u (normal u)) v
        → Encodes w cs (write_message w encode t v) (set none) (set (map_option normal v))
    unfolding write_message map_option
    Encodes-message_as set keeps none h = Encodes-skip w cs (set none) (λ writer. refl)
    Encodes-message_as set keeps (some v) h =
        Encodes-Nested v (normal v) h (set none) (set (some (normal v))) (keeps none (normal v))

    messages_behind :
        (set : List V → M)
        → ((xs : List V) (b : V) → put (set xs) b ≡ set (xs ++ b ∷ []))
        → (xs vs : List V) → All (λ u. NestedAs encode decode u (normal u)) vs
        → Encodes w cs (write_messages w encode t vs) (set xs) (set (xs ++ map normal vs))
    unfolding write_messages
    messages_behind set keeps xs [] h = rw append-nil (Encodes-skip w cs (set xs) (λ writer. refl))
    messages_behind set keeps xs (v ∷ vs) (h, hs) =
        subst (λ l. Encodes w cs (write_messages w encode t (v ∷ vs)) (set xs) (set l))
          (append_assoc xs (normal v ∷ []) (map normal vs))
          (Encodes-seq w cs
            (Encodes-Nested v (normal v) h (set xs) (set (xs ++ normal v ∷ []))
              (keeps xs (normal v)))
            (messages_behind set keeps (xs ++ normal v ∷ []) vs hs))

    pub Encodes-messages_as :
        (set : List V → M)
        → ((xs : List V) (b : V) → put (set xs) b ≡ set (xs ++ b ∷ []))
        → (vs : List V) → All (λ u. NestedAs encode decode u (normal u)) vs
        → Encodes w cs (write_messages w encode t vs) (set []) (set (map normal vs))
    Encodes-messages_as set keeps vs h = messages_behind set keeps [] vs h
