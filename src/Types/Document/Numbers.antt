-- ===== src/Types/Document/Numbers.antt =====
-- src/types.rs: the numbers of a snapshot that is read.
use onym_discovery.Prelude.{ℕ, ◌^◌, ◌<◌, ◌≡◌, Option, some, [], ◌∷◌, arith, Option-cases, inl, inr}
use onym_discovery.Json.{Stream}
use onym_discovery.Crates.{Crates}
use onym_discovery.Types.Records.{CatalogSnapshot}
use onym_discovery.Types.Decode.{Slots, slots, uint_of, required}
use onym_discovery.Types.Document.{snapshot_of, snapshot_of_slots, snapshot_fields}

required-lt :
    (width : ℕ) (o : Option Stream) (n : ℕ) → required (uint_of width) o ≡ some n → n < 2 ^ width
unfolding uint_of
required-lt width o n h = ground (arith, h)

module _ (crates : Crates) where
  sequence-slots :
      (os : Slots) (s : CatalogSnapshot)
      → snapshot_of_slots crates os ≡ some s
      → s.sequence < 2 ^ 64
  unfolding snapshot_of_slots
  sequence-slots [] s h = absurd (ground (arith, h))
  sequence-slots (o0 ∷ []) s h = absurd (ground (arith, h))
  sequence-slots (o0 ∷ o1 ∷ []) s h = absurd (ground (arith, h))
  sequence-slots (o0 ∷ o1 ∷ o2 ∷ []) s h = absurd (ground (arith, h))
  sequence-slots (o0 ∷ o1 ∷ o2 ∷ o3 ∷ []) s h = absurd (ground (arith, h))
  sequence-slots (o0 ∷ o1 ∷ o2 ∷ o3 ∷ o4 ∷ []) s h = absurd (ground (arith, h))
  sequence-slots (o0 ∷ o1 ∷ o2 ∷ o3 ∷ o4 ∷ o5 ∷ []) s h = absurd (ground (arith, h))
  sequence-slots (o0 ∷ o1 ∷ o2 ∷ o3 ∷ o4 ∷ o5 ∷ o6 ∷ []) s h = absurd (ground (arith, h))
  sequence-slots (o0 ∷ o1 ∷ o2 ∷ o3 ∷ o4 ∷ o5 ∷ o6 ∷ o7 ∷ []) s h = absurd (ground (arith, h))
  sequence-slots (o0 ∷ o1 ∷ o2 ∷ o3 ∷ o4 ∷ o5 ∷ o6 ∷ o7 ∷ o8 ∷ []) s h = absurd (ground (arith, h))
  sequence-slots (o0 ∷ o1 ∷ o2 ∷ o3 ∷ o4 ∷ o5 ∷ o6 ∷ o7 ∷ o8 ∷ o9 ∷ []) s h =
      absurd (ground (arith, h))
  sequence-slots (o0 ∷ o1 ∷ o2 ∷ o3 ∷ o4 ∷ o5 ∷ o6 ∷ o7 ∷ o8 ∷ o9 ∷ o10 ∷ []) s h =
      let e : required (uint_of 64) o4 ≡ some s.sequence = ground (arith, h) in
      required-lt 64 o4 s.sequence e
  sequence-slots (o0 ∷ o1 ∷ o2 ∷ o3 ∷ o4 ∷ o5 ∷ o6 ∷ o7 ∷ o8 ∷ o9 ∷ o10 ∷ o11 ∷ os) s h =
      absurd (ground (arith, h))

  -- A snapshot's sequence is a `u64`.
  pub snapshot_of-sequence :
      (st : Stream) (s : CatalogSnapshot) → snapshot_of crates st ≡ some s → s.sequence < 2 ^ 64
  unfolding snapshot_of
  snapshot_of-sequence st s h = elim (Option-cases (slots snapshot_fields st)) [
    | inl e ↦ absurd (ground (arith, e, h))
    | inr (os, e) ↦ sequence-slots os s (ground (arith, e, h))
  ]
