-- ===== src/Types/Decode/Filled.antt =====
-- src/types.rs: a field that the object has is in its slot, where the struct is read by name.
use onym_discovery.Prelude.{
  Text, Option, none, some, List, [], ◌∷◌, ◌≡◌, ap, subst, ◌∙◌, ◌=ᵗ◌, =ᵗ_iff, if◌then◌else◌, arith,
  Option-cases, Bool-cases, inl, inr,
}
use onym_discovery.Json
use onym_discovery.Json.{Value, object, Members, end, member, events, events_members, Stream, get}
use onym_discovery.Types.Decode.{Slots, put, by_name, slots}

-- The slot that a name has.
unfoldable pub slot : Text → List Text → Slots → Option Stream
slot k (n ∷ ns) (o ∷ os) = if n =ᵗ k then o else slot k ns os
slot k _ _ = none

slot-put :
    (k : Text) (s : Stream) (ns : List Text) (os os' : Slots)
    → put k s ns os ≡ some os'
    → slot k ns os' ≡ some s
unfolding put slot
slot-put k s [] os os' h = absurd (ground (arith, h))
slot-put k s (n ∷ ns) [] os' h = absurd (ground (arith, h))
slot-put k s (n ∷ ns) (o ∷ os) [] h = absurd (ground (arith, h))
slot-put k s (n ∷ ns) (o ∷ os) (p ∷ ps) h = ground (arith, h, slot-put k s ns os ps)

slot-stays :
    (k j : Text) (s t : Stream) (ns : List Text) (os os' : Slots)
    → put k s ns os ≡ some os'
    → slot j ns os ≡ some t
    → slot j ns os' ≡ some t
unfolding put slot
slot-stays k j s t [] os os' h e = absurd (ground (arith, h))
slot-stays k j s t (n ∷ ns) [] os' h e = absurd (ground (arith, h))
slot-stays k j s t (n ∷ ns) (o ∷ os) [] h e = absurd (ground (arith, h))
slot-stays k j s t (n ∷ ns) (o ∷ os) (p ∷ ps) h e =
    ground (arith, h, e, slot-stays k j s t ns os ps, =ᵗ_iff n k, =ᵗ_iff n j)

by_name-stays :
    (j : Text) (t : Stream) (ns : List Text) (ms : Members) (os os' : Slots)
    → by_name ns (events_members ms) os ≡ some os'
    → slot j ns os ≡ some t
    → slot j ns os' ≡ some t
unfolding by_name Json.events
by_name-stays j t ns end os os' h e =
    let same : os ≡ os' = ground (arith, h) in subst (λ x. slot j ns x ≡ some t) same e
by_name-stays j t ns (member k v ms) os os' h e = elim (Option-cases (put k (events v) ns os)) [
  | inl f ↦ absurd (ground (arith, f, h))
  | inr (mid, f) ↦
      by_name-stays j t ns ms mid os' (ground (arith, f, h))
        (slot-stays k j (events v) t ns os mid f e)
]

by_name-filled :
    (k : Text) (v : Value) (ns : List Text) (ms : Members) (os os' : Slots)
    → by_name ns (events_members ms) os ≡ some os'
    → get k ms ≡ some v
    → slot k ns os' ≡ some (events v)
unfolding by_name Json.events get
by_name-filled k v ns end os os' h e = absurd (ground (arith, e))
by_name-filled k v ns (member j w ms) os os' h e = elim (Option-cases (put j (events w) ns os)) [
  | inl f ↦ absurd (ground (arith, f, h))
  | inr (mid, f) ↦ elim (Bool-cases (j =ᵗ k)) [
    | inl same ↦
        let w_is : w ≡ v = ground (arith, e, same) in
        by_name-stays k (events v) ns ms mid os' (ground (arith, f, h)) (
          subst (λ x. slot x ns mid ≡ some (events v)) ((=ᵗ_iff j k).0 same)
            (slot-put j (events w) ns os mid f ∙ ap (λ x. some (events x)) w_is))
    | inr other ↦ by_name-filled k v ns ms mid os' (ground (arith, f, h)) (ground (arith, e, other))
  ]
]

-- A member of an object that is read is in its slot.
pub slots-filled :
    (k : Text) (v : Value) (ns : List Text) (ms : Members) (os : Slots)
    → slots ns (events (object ms)) ≡ some os
    → get k ms ≡ some v
    → slot k ns os ≡ some (events v)
unfolding slots Json.events
slots-filled k v ns ms os h e = by_name-filled k v ns ms _ os h e
