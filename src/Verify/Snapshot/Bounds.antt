-- ===== src/Verify/Snapshot/Bounds.antt =====
-- The numbers of an accepted snapshot (src/verify.rs, `verify_snapshot`).
use onym_discovery.Prelude.{
  ℕ, suc, ◌+◌, ◌^◌, ◌≤◌, ◌<◌, ◌≡◌, refl, sym, ap, ◌∙◌, Bytes, Option, List, [], ◌∷◌, length, All,
  Distinct, arith, Option-cases, inl, inr, subst,
}
use onym_discovery.Result.{Result, ok, err, panic}
use onym_discovery.Json.{Value}
use onym_discovery.Crates.{Crates, done, from_slice, decoded}
use onym_discovery.Crates.Laws.{HexLaws}
use onym_discovery.Types.Records.{CatalogSnapshot, CatalogEntry}
use onym_discovery.Types.Document.{snapshot_of}
use onym_discovery.Types.Document.Numbers.{snapshot_of-sequence}
use onym_discovery.Verify.State.{VerifiedManifest, RetainedCatalogState, VerifiedSnapshot}
use onym_discovery.Verify.Chain.{check_sequence}
use onym_discovery.Verify.Entry.{decode_entry}
use onym_discovery.Verify.Entry.Lossy.{ids, add_index, decodable, undecodable, decode_entries_iff}
use onym_discovery.Verify.Snapshot.{verify_snapshot}
use onym_discovery.Verify.Snapshot.Inversion.{verify_snapshot-IsAccepted}

module _ (crates : Crates) where
  pub read-sequence :
      (raw : Bytes) (s : CatalogSnapshot)
      → from_slice crates (λ st. decoded (snapshot_of crates st)) raw ≡ done s
      → s.sequence < 2 ^ 64
  unfolding from_slice
  read-sequence raw s h = elim (Option-cases (snapshot_of crates (crates.read raw).0)) [
    | inl e ↦ absurd (ground (arith, e, h))
    | inr (t, e) ↦
        let same : t ≡ s = ground (arith, e, h) in
        snapshot_of-sequence crates (crates.read raw).0 s (ground (arith, e, same))
  ]

  check_sequence-positive : (s : CatalogSnapshot) → check_sequence s ≡ ok tt → 0 < s.sequence
  unfolding check_sequence
  check_sequence-positive s h = ground (arith, h)

  later :
      (i n : ℕ) (ks : List ℕ)
      → All (λ k. (suc i ≤ k) × (k < suc i + n)) ks
      → All (λ k. (i ≤ k) × (k < i + suc n)) ks
  later i n [] a = tt
  later i n (k ∷ ks) ((low, high), a) = ((omega arith, omega arith), later i n ks a)

  with_index :
      (i n : ℕ) (r : Result CatalogEntry) (ks : List ℕ)
      → All (λ k. (suc i ≤ k) × (k < suc i + n)) ks
      → All (λ k. (i ≤ k) × (k < i + suc n)) (add_index i r ks)
  with_index i n (ok e) ks a = later i n ks a
  with_index i n (err e) ks a = ((omega arith, omega arith), later i n ks a)
  with_index i n panic ks a = ((omega arith, omega arith), later i n ks a)

  undecodable-lt :
      (i : ℕ) (vs : List Value) → All (λ k. (i ≤ k) × (k < i + length vs)) (undecodable crates i vs)
  unfolding undecodable
  undecodable-lt i [] = tt
  undecodable-lt i (v ∷ vs) =
      with_index i (length vs) (decode_entry crates v) (undecodable crates (suc i) vs)
        (undecodable-lt (suc i) vs)

  length-undecodable :
      (i : ℕ) (vs : List Value)
      → length (decodable crates vs) + length (undecodable crates i vs) ≡ length vs
  unfolding decodable undecodable
  length-undecodable i [] = refl
  length-undecodable i (v ∷ vs) = ground (arith, length-undecodable (suc i) vs)

-- The numbers of an accepted snapshot: its bytes are at most 1 MiB, its sequence is a `u64` that is not
-- zero, it lists at most 512 entries, each of which is either decoded or skipped, a position that is
-- skipped is one of the list, and no two of the decoded entries name one component.
pub record IsBounded (raw : Bytes) (v : VerifiedSnapshot) : Type 0 where
  pub sized : length raw ≤ 1_048_576
  pub positive : 0 < v.snapshot.sequence
  pub u64 : v.snapshot.sequence < 2 ^ 64
  pub few : length v.snapshot.entries ≤ 512
  pub covered : length v.entries + length v.skipped ≡ length v.snapshot.entries
  pub in_list : All (λ k. k < length v.snapshot.entries) v.skipped
  pub distinct : Distinct (ids v.entries)

below : (n : ℕ) (ks : List ℕ) → All (λ k. (0 ≤ k) × (k < 0 + n)) ks → All (λ k. k < n) ks
below n [] a = tt
below n (k ∷ ks) ((_, high), a) = (omega (arith, high), below n ks a)

-- What `verify_snapshot` accepts is within its bounds: at most 1 MiB; a sequence that is a `u64` and not
-- zero; at most 512 entries, each decoded or skipped, the skipped by their position in the list; and
-- no component named by two decoded entries.
pub verify_snapshot-IsBounded :
    (crates : Crates)
    → HexLaws crates
    → (raw : Bytes) (m : VerifiedManifest) (retained : Option RetainedCatalogState) (now : ℕ)
      (v : VerifiedSnapshot)
    → verify_snapshot crates raw m retained now ≡ ok v
    → IsBounded raw v
verify_snapshot-IsBounded crates hex raw m retained now v h =
    let a = verify_snapshot-IsAccepted crates raw m retained now v h in
    let (few, distinct, same) =
      (decode_entries_iff crates hex v.snapshot.entries
          (record { entries = v.entries; skipped = v.skipped })).0
        a.listed in
    let es = v.snapshot.entries in
    let entries : v.entries ≡ decodable crates es = ap (λ d. d.entries) same in
    let skipped : v.skipped ≡ undecodable crates 0 es = ap (λ d. d.skipped) same in
    record {
      sized = a.sized;
      positive = check_sequence-positive crates v.snapshot a.structured;
      u64 = read-sequence crates raw v.snapshot a.read;
      few = few;
      covered =
          ap (λ x. length x + length v.skipped) entries
          ∙ ap (λ x. length (decodable crates es) + length x) skipped
          ∙ length-undecodable crates 0 es;
      in_list =
          subst (All (λ k. k < length es)) (sym skipped)
            (below (length es) (undecodable crates 0 es) (undecodable-lt crates 0 es));
      distinct = subst (λ x. Distinct (ids x)) (sym entries) distinct;
    }
