-- ===== src/Types/Decode.antt =====
-- src/types.rs: what `#[derive(Deserialize)]` makes of the shapes
-- with `deny_unknown_fields` and `rename_all = "camelCase"`. A visitor takes the fields by name, in
-- any order, or by position from an array. Why serde refuses is not kept: a failure is `none`.
pub mod Filled
use onym_discovery.Prelude.{
  ℕ, ◌^◌, Text, Option, none, some, ltb, ◌=ᵗ◌, if◌then◌else◌, List, [], ◌∷◌,
}
use onym_discovery.Json.{
  Value, Stream, visit_unit, visit_number, visit_str, visit_seq, visit_map, Elements, end_seq,
  next_element, broken_seq, Entries, end_map, next_entry, broken_map, unsigned,
}
use onym_discovery.Crates.{Crates, done, failed}

infixl 5 ◌>>=◌
abbrev pub ◌>>=◌ {ℓ κ} : {A : Type ℓ} {B : Type κ} → Option A → (A → Option B) → Option B
none >>= f = none
some a >>= f = f a

-- The field slots of a struct that is being read: the events of a field that came.
abbrev pub Slots : Type 0
Slots = List (Option Stream)

unfoldable pub empty_slots : List Text → Slots
empty_slots [] = []
empty_slots (n ∷ ns) = none ∷ empty_slots ns

abbrev pub fill : Option Stream → Stream → Option (Option Stream)
fill none s = some (some s)
fill (some _) s = none

-- A field that came twice is refused, and so is a name that the struct does not have.
unfoldable pub put : Text → Stream → List Text → Slots → Option Slots
put k s (n ∷ ns) (o ∷ os) =
    let later = put k s ns os in
    if n =ᵗ k then (do o' ← fill o s; some (o' ∷ os)) else (do os' ← later; some (o ∷ os'))
put k s _ _ = none

unfoldable pub by_name : List Text → Entries → Slots → Option Slots
by_name ns end_map os = some os
by_name ns (next_entry k s es) os = do os' ← put k s ns os; by_name ns es os'
by_name ns (broken_map e) os = none

unfoldable pub by_position : List Text → Elements → Option Slots
by_position [] end_seq = some []
by_position (n ∷ ns) (next_element s els) = do os ← by_position ns els; some (some s ∷ os)
by_position _ _ = none

unfoldable pub slots : List Text → Stream → Option Slots
unfolding by_name by_position put empty_slots
slots ns (visit_map es) = by_name ns es (empty_slots ns)
slots ns (visit_seq els) = by_position ns els
slots ns _ = none

-- `String`, `u16`, `u32` and `u64`, `Vec<T>`
unfoldable pub string_of : Stream → Option Text
string_of (visit_str s) = some s
string_of _ = none

unfoldable pub uint_of : ℕ → Stream → Option ℕ
uint_of width (visit_number (unsigned n)) = if ltb n (2 ^ width) then some n else none
uint_of width _ = none

unfoldable pub elements_of : {A : Type 0} → (Stream → Option A) → Elements → Option (List A)
elements_of item end_seq = some []
elements_of item (next_element s els) = do a ← item s; as' ← elements_of item els; some (a ∷ as')
elements_of item (broken_seq e) = none

unfoldable pub list_of : {A : Type 0} → (Stream → Option A) → Stream → Option (List A)
unfolding elements_of
list_of item (visit_seq els) = elements_of item els
list_of item _ = none

-- A field that must be there, one of type `Option<T>`, and one with `#[serde(default)]`.
abbrev pub required : {A : Type 0} → (Stream → Option A) → Option Stream → Option A
required item none = none
required item (some s) = item s

unfoldable pub nullable : {A : Type 0} → (Stream → Option A) → Stream → Option (Option A)
nullable item visit_unit = some none
nullable item s = do a ← item s; some (some a)

abbrev pub optional : {A : Type 0} → (Stream → Option A) → Option Stream → Option (Option A)
optional item none = some none
optional item (some s) = nullable item s

abbrev pub defaulted : {A : Type 0} → (Stream → Option (List A)) → Option Stream → Option (List A)
defaulted item none = some []
defaulted item (some s) = item s

abbrev pub value_of : Crates → Stream → Option Value
value_of crates s = elim (crates.collect s) [ done v ↦ some v | failed e ↦ none ]
