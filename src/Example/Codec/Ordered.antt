-- ===== src/Example/Codec/Ordered.antt =====
-- The stand-in's `Value` of a tree's events is the tree again, where the keys are in order.
use Prim.Native.Nat.{Ordering}
use onym_discovery.Prelude.{
  ℕ, zero, suc, Text, [], ◌∷◌, ◌≡◌, refl, ap, ◌∙◌, arith, All, Before, compare_text, List,
}
use onym_discovery.Json.{
  Value, null, bool, number, string, array, object, Values, nil, cons, Members, end, member, events,
  events_values, events_members, insert,
}
use onym_discovery.Json.Regular.{keys, Sorted, Regular, RegularValues, RegularMembers, insert-gt}
use onym_discovery.Crates.{done}
use onym_discovery.Example.Codec.{collect, collect_values, collect_members}

gt_of_Before : (s t : Text) → Before s t → compare_text t s ≡ Ordering.gt
unfolding compare_text
gt_of_Before [] [] h = cc
gt_of_Before [] (b ∷ t) h = refl
gt_of_Before (a ∷ s) [] h = cc
gt_of_Before (a ∷ s) (b ∷ t) h = ground (arith, gt_of_Before s t)

abbrev join : Members → Members → Members
join end ns = ns
join (member k v ms) ns = member k v (join ms ns)

abbrev Precede : Members → Text → Type 0
Precede ms k = All (λ j. Before j k) (keys ms)

insert-last :
    (k : Text) (v : Value) (ms : Members) → Precede ms k → insert k v ms ≡ join ms (member k v end)
unfolding insert
insert-last k v end h = refl
insert-last k v (member j w ms) (b, h) =
    insert-gt k j v w ms (gt_of_Before j k b) ∙ ap (member j w) (insert-last k v ms h)

join-join :
    (ms : Members) (k : Text) (v : Value) (ns : Members)
    → join (join ms (member k v end)) ns ≡ join ms (member k v ns)
join-join end k v ns = refl
join-join (member j w ms) k v ns = ap (member j w) (join-join ms k v ns)

Precede-join :
    (ms : Members) (k : Text) (v : Value) (i : Text)
    → Precede ms i
    → Before k i
    → Precede (join ms (member k v end)) i
Precede-join end k v i h b = (b, tt)
Precede-join (member j w ms) k v i (a, h) b = (a, Precede-join ms k v i h b)

Precede-extend :
    (ms : Members) (k : Text) (v : Value) (ks : List Text)
    → All (Precede ms) ks
    → All (Before k) ks
    → All (Precede (join ms (member k v end))) ks
Precede-extend ms k v [] h b = tt
Precede-extend ms k v (i ∷ ks) (p, h) (q, b) =
    (Precede-join ms k v i p q, Precede-extend ms k v ks h b)

Precede-end : (ks : List Text) → All (Precede end) ks
Precede-end [] = tt
Precede-end (k ∷ ks) = (tt, Precede-end ks)

join-end : (ms : Members) → ms ≡ join ms end
join-end end = refl
join-end (member k v ms) = ap (member k v) (join-end ms)

mutual
  unfolding collect events Regular

  pub collect-events : (d : ℕ) (v : Value) → Regular d v → collect (events v) ≡ done v
  collect-events d null r = refl
  collect-events d (bool b) r = refl
  collect-events d (number n) r = refl
  collect-events d (string s) r = refl
  collect-events zero (array vs) r = absurd r
  collect-events (suc d) (array vs) r = rw (collect_values-events d vs r) refl
  collect-events zero (object ms) r = absurd r
  collect-events (suc d) (object ms) (s, r) =
      rw (collect_members-events d ms end s (Precede-end (keys ms)) r) refl

  collect_values-events :
      (d : ℕ) (vs : Values) → RegularValues d vs → collect_values (events_values vs) ≡ done vs
  collect_values-events d nil r = refl
  collect_values-events d (cons v vs) (r, rs) =
      rw (collect-events d v r) (rw (collect_values-events d vs rs) refl)

  collect_members-events :
      (d : ℕ) (ms seen : Members)
      → Sorted (keys ms)
      → All (Precede seen) (keys ms)
      → RegularMembers d ms
      → collect_members (events_members ms) seen ≡ done (join seen ms)
  collect_members-events d end seen s p r = ap done (join-end seen)
  collect_members-events d (member k v ms) seen (b, s) (p, ps) (r, rs) = rw (collect-events d v r) (
      rw (insert-last k v seen p) (
        collect_members-events d ms (join seen (member k v end)) s
          (Precede-extend seen k v (keys ms) ps b) rs
        ∙ ap done (join-join seen k v ms)))
