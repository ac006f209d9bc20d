-- ===== src/Json/Inserted.antt =====
-- `serde_json::Map`: what was put under a key is found there.
use Prim.Native.Nat.{Ordering}
use onym_discovery.Prelude.{
  Text, some, ◌≡◌, ◌≢◌, refl, inl, inr, compare_text, compare_self, =ᵗ_iff, =ᵗ_refl, arith,
}
use onym_discovery.Json.Regular.{insert-lt, insert-eq, insert-gt, Ordering-cases}
use onym_discovery.Json.{Value, Members, end, member, get, insert}

gt-ne : (k j : Text) → compare_text k j ≡ Ordering.gt → j ≢ k
gt-ne k j h e = absurd (ground (arith, e, h, compare_self k))

insert-end : (k : Text) (w : Value) → insert k w end ≡ member k w end
unfolding insert
insert-end k w = refl

pub get-of_insert : (k : Text) (w : Value) (ms : Members) → get k (insert k w ms) ≡ some w
unfolding get
get-of_insert k w end = rw (insert-end k w) (rw (=ᵗ_refl k) refl)
get-of_insert k w (member j v ms) = elim (Ordering-cases (compare_text k j)) [
  | inl e ↦ rw (insert-lt k j w v ms e) (rw (=ᵗ_refl k) refl)
  | inr (inl e) ↦ rw (insert-eq k j w v ms e) (rw (=ᵗ_refl k) refl)
  | inr (inr e) ↦
      rw (insert-gt k j w v ms e) (ground (arith, gt-ne k j e, =ᵗ_iff j k, get-of_insert k w ms))
]
