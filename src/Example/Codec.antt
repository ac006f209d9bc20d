-- ===== src/Example/Codec.antt =====
-- A stand-in for the JSON codec: a tagged prefix code, which `read` takes apart into events. The
-- theorems hold for any codec; the tests run on this one.
pub mod Faithful
pub mod Ordered
use onym_discovery.Prelude.{
  ℕ, zero, suc, Text, Bytes, Bool, true, false, Option, none, some, [], ◌∷◌, ◌++◌, length, ◌==◌,
}
use onym_discovery.Crates.{Attempt, done, failed}
use onym_discovery.Json.{
  Number, unsigned, negative, float, Value, null, bool, number, string, array, object, Values, nil,
  cons, Members, end, member, Stream, visit_unit, visit_bool, visit_number, visit_str, visit_seq,
  visit_map, broken, Elements, end_seq, next_element, broken_seq, Entries, end_map, next_entry,
  broken_map,
}
use onym_discovery.Json

bit : Bool → ℕ
bit true = 1
bit false = 0

-- A text is its length and its bytes.
abbrev frame : Text → Bytes
frame s = length s ∷ s

mutual
  pub encode : Value → Bytes
  encode null = 0 ∷ []
  encode (bool b) = 1 ∷ bit b ∷ []
  encode (number (unsigned n)) = 2 ∷ n ∷ []
  encode (number (negative n)) = 3 ∷ n ∷ []
  encode (number (float n)) = 4 ∷ n ∷ []
  encode (string s) = 5 ∷ frame s
  encode (array vs) = 6 ∷ encode_values vs
  encode (object ms) = 7 ∷ encode_members ms

  pub encode_values : Values → Bytes
  encode_values nil = 0 ∷ []
  encode_values (cons v vs) = 1 ∷ encode v ++ encode_values vs

  pub encode_members : Members → Bytes
  encode_members end = 0 ∷ []
  encode_members (member k v ms) = 1 ∷ frame k ++ encode v ++ encode_members ms

-- The first `n` bytes and the rest.
split : ℕ → Bytes → Bytes × Bytes
split zero bs = ([], bs)
split (suc n) [] = ([], [])
split (suc n) (b ∷ bs) = let (front, rest) = split n bs in (b ∷ front, rest)

unframe : Bytes → Text × Bytes
unframe [] = ([], [])
unframe (n ∷ bs) = split n bs

head_of : Bytes → ℕ × Bytes
head_of [] = (0, [])
head_of (b ∷ bs) = (b, bs)

abbrev number_with : (ℕ → Number) → Bytes → Stream × Bytes
number_with kind bs = let (n, rest) = head_of bs in (visit_number (kind n), rest)

-- The fuel is the number of bytes, which is more than the depth.
mutual
  pub decode : ℕ → Bytes → Stream × Bytes
  decode zero bs = (broken [], bs)
  decode (suc f) [] = (broken [], [])
  decode (suc f) (zero ∷ bs) = (visit_unit, bs)
  decode (suc f) (suc zero ∷ bs) = let (b, rest) = head_of bs in (visit_bool (b == 1), rest)
  decode (suc f) (suc (suc zero) ∷ bs) = number_with unsigned bs
  decode (suc f) (suc (suc (suc zero)) ∷ bs) = number_with negative bs
  decode (suc f) (suc (suc (suc (suc zero))) ∷ bs) = number_with float bs
  decode (suc f) (suc (suc (suc (suc (suc zero)))) ∷ bs) =
      let (s, rest) = unframe bs in (visit_str s, rest)
  decode (suc f) (suc (suc (suc (suc (suc (suc zero))))) ∷ bs) =
      let (els, rest) = decode_values f bs in (visit_seq els, rest)
  decode (suc f) (suc (suc (suc (suc (suc (suc (suc zero)))))) ∷ bs) =
      let (es, rest) = decode_members f bs in (visit_map es, rest)
  decode (suc f) (_ ∷ bs) = (broken [], bs)

  pub decode_values : ℕ → Bytes → Elements × Bytes
  decode_values zero bs = (broken_seq [], bs)
  decode_values (suc f) [] = (broken_seq [], [])
  decode_values (suc f) (zero ∷ bs) = (end_seq, bs)
  decode_values (suc f) (suc _ ∷ bs) =
      let (s, after) = decode f bs in
      let (els, rest) = decode_values f after in (next_element s els, rest)

  pub decode_members : ℕ → Bytes → Entries × Bytes
  decode_members zero bs = (broken_map [], bs)
  decode_members (suc f) [] = (broken_map [], [])
  decode_members (suc f) (zero ∷ bs) = (end_map, bs)
  decode_members (suc f) (suc _ ∷ bs) =
      let (k, tail) = unframe bs in
      let (s, after) = decode f tail in
      let (es, rest) = decode_members f after in (next_entry k s es, rest)

-- `Value` of the events: the last of two equal keys wins, and the keys are sorted.
infixl 5 ◌>>=◌
abbrev ◌>>=◌ {ℓ κ} : {A : Type ℓ} {B : Type κ} → Attempt A → (A → Attempt B) → Attempt B
done a >>= f = f a
failed e >>= f = failed e

mutual
  pub collect : Stream → Attempt Value
  collect visit_unit = done null
  collect (visit_bool b) = done (bool b)
  collect (visit_number n) = done (number n)
  collect (visit_str s) = done (string s)
  collect (visit_seq els) = do vs ← collect_values els; done (array vs)
  collect (visit_map es) = do ms ← collect_members es end; done (object ms)
  collect (broken e) = failed e

  pub collect_values : Elements → Attempt Values
  collect_values end_seq = done nil
  collect_values (next_element s els) = do v ← collect s; vs ← collect_values els; done (cons v vs)
  collect_values (broken_seq e) = failed e

  pub collect_members : Entries → Members → Attempt Members
  collect_members end_map ms = done ms
  collect_members (next_entry k s es) ms = do v ← collect s; collect_members es (Json.insert k v ms)
  collect_members (broken_map e) ms = failed e

complaint : Bytes → Option Text
complaint [] = none
complaint (_ ∷ _) = some []

pub read : Bytes → Stream × Option Text
read bs = let (s, rest) = decode (suc (length bs)) bs in (s, complaint rest)

-- Everything above, for the `unfolding` line of a test.
unfoldable pub codec : Unit {0}
unfolding encode decode collect read complaint head_of unframe split bit Json.insert
codec = tt
