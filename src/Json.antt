-- ===== src/Json.antt =====
-- `serde_json::Value`, and the stream of events that a deserializer hands to a visitor.
pub mod Regular
pub mod Deeper
pub mod Inserted
use onym_discovery.Prelude.{
  ℕ, Text, Bool, Option, none, some, List, [], ◌∷◌, if◌then◌else◌, ◌=ᵗ◌, compare_text,
}
use Prim.Native.Nat.{Ordering}

pub data Number : Type 0 where
  unsigned : ℕ → Number
  -- -(n + 1)
  negative : ℕ → Number
  -- the bits of an `f64`
  float : ℕ → Number

mutual
  pub data Value : Type 0 where
    null : Value
    bool : Bool → Value
    number : Number → Value
    string : Text → Value
    array : Values → Value
    object : Members → Value

  pub data Values : Type 0 where
    nil : Values
    cons : Value → Values → Values

  pub data Members : Type 0 where
    end : Members
    member : Text → Value → Members → Members

-- What a visitor receives, in the order of the bytes: a key may repeat, and `broken` stands where
-- the text stops being JSON.
mutual
  pub data Stream : Type 0 where
    visit_unit : Stream
    visit_bool : Bool → Stream
    visit_number : Number → Stream
    visit_str : Text → Stream
    visit_seq : Elements → Stream
    visit_map : Entries → Stream
    broken : Text → Stream

  pub data Elements : Type 0 where
    end_seq : Elements
    next_element : Stream → Elements → Elements
    broken_seq : Text → Elements

  pub data Entries : Type 0 where
    end_map : Entries
    next_entry : Text → Stream → Entries → Entries
    broken_map : Text → Entries

abbrev pub values : Values → List Value
values nil = []
values (cons v vs) = v ∷ values vs

abbrev pub of_values : List Value → Values
of_values [] = nil
of_values (v ∷ vs) = cons v (of_values vs)

-- The operations of `serde_json::Map`, which is a `BTreeMap`: the members in the order of keys.
unfoldable pub get : Text → Members → Option Value
get k end = none
get k (member j v ms) = if j =ᵗ k then some v else get k ms

unfoldable pub remove : Text → Members → Members
remove k end = end
remove k (member j v ms) = if j =ᵗ k then ms else member j v (remove k ms)

unfoldable pub insert : Text → Value → Members → Members
insert k w end = member k w end
insert k w (member j v ms) = elim (compare_text k j) [
  | Ordering.lt ↦ member k w (member j v ms)
  | Ordering.eq ↦ member k w ms
  | Ordering.gt ↦ member j v (insert k w ms)
]

-- `Value::as_object`, `Value::as_str`
abbrev pub as_object : Value → Option Members
as_object (object ms) = some ms
as_object _ = none

abbrev pub as_str : Value → Option Text
as_str (string s) = some s
as_str _ = none

-- The events by which a tree hands itself to a visitor (`serde_json::from_value`).
unfoldable mutual
  pub events : Value → Stream
  events null = visit_unit
  events (bool b) = visit_bool b
  events (number n) = visit_number n
  events (string s) = visit_str s
  events (array vs) = visit_seq (events_values vs)
  events (object ms) = visit_map (events_members ms)

  pub events_values : Values → Elements
  events_values nil = end_seq
  events_values (cons v vs) = next_element (events v) (events_values vs)

  pub events_members : Members → Entries
  events_members end = end_map
  events_members (member k v ms) = next_entry k (events v) (events_members ms)

-- `Value::get`: `none` on anything but an object.
abbrev pub member_of : Text → Value → Option Value
member_of k (object ms) = get k ms
member_of k _ = none
