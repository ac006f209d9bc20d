-- ===== src/Verify/Entry/Lossy.antt =====
-- src/verify.rs: the loop over a snapshot's entries against a plain description of its result.
use onym_discovery.Prelude.{
  ◌∙◌, Option, none, some, Option-cases, inl, inr, ℕ, suc, ◌≤◌, ◌≡◌, ◌↔◌, refl, Text, List, [], ◌∷◌,
  ◌++◌, length, arith, contains_iff, Distinct, NewIn, NewIn-Distinct,
}
use mathlib.Core.List.{append_assoc, append-nil}
use onym_discovery.Result.{
  Result, ok, err, panic, ◌>>=◌, Returns, Returns-bind, Returns-ok_or, ok_or,
}
use onym_discovery.Json.{Value, events}
use onym_discovery.Crates.{Crates}
use onym_discovery.Crates.Laws.{HexLaws}
use onym_discovery.Types.Constants.{max_entries}
use onym_discovery.Types.Records.{CatalogEntry, EntryStatus}
use onym_discovery.Types.Entry.{entry_of}
use onym_discovery.Types.Fields.Total.{
  validate_component_id-Returns, validate_uri-Returns, validate_digest-Returns,
  parse_operator_key-Returns, parse_timestamp-Returns,
}
use onym_discovery.Verify.Entry.{
  Decoded, keep, check_entry, decode_entry, decode_from, decode_entries,
  reject_duplicate_components, check_reviewed, check_status,
}

abbrev pub ids : List CatalogEntry → List Text
ids [] = []
ids (e ∷ es) = e.component_id ∷ ids es

abbrev add_entry : Result CatalogEntry → List CatalogEntry → List CatalogEntry
add_entry (ok e) es = e ∷ es
add_entry _ es = es

abbrev pub add_index : ℕ → Result CatalogEntry → List ℕ → List ℕ
add_index i (ok e) is = is
add_index i _ is = i ∷ is

module _ (crates : Crates) where
  -- The entries that decode, in their order.
  unfoldable pub decodable : List Value → List CatalogEntry
  decodable [] = []
  decodable (v ∷ vs) = add_entry (decode_entry crates v) (decodable vs)

  -- The positions, counted from `i`, of the others.
  unfoldable pub undecodable : ℕ → List Value → List ℕ
  undecodable i [] = []
  undecodable i (v ∷ vs) = add_index i (decode_entry crates v) (undecodable (suc i) vs)

module _ (crates : Crates) (laws : HexLaws crates) where
  check_reviewed-Returns : (o : Option Text) → Returns (check_reviewed crates o)
  unfolding check_reviewed
  check_reviewed-Returns none = λ p. cc
  check_reviewed-Returns (some t) = ground (arith, parse_timestamp-Returns crates t)

  check_status-Returns : (o : Option EntryStatus) → Returns (check_status crates o)
  unfolding check_status
  check_status-Returns none = λ p. cc
  check_status-Returns (some st) = elim (Option-cases st.uri) [
    | inl e ↦ ground arith
    | inr (u, e) ↦ ground (arith, validate_uri-Returns crates u)
  ]

  pub check_entry-Returns : (e : CatalogEntry) → Returns (check_entry crates e)
  unfolding check_entry
  check_entry-Returns e = ground (
    arith,
    validate_component_id-Returns e.component_id,
    validate_uri-Returns crates e.manifest.uri,
    validate_digest-Returns e.manifest.digest,
    parse_operator_key-Returns crates laws e.operator,
    parse_timestamp-Returns crates e.listed_at,
    check_reviewed-Returns e.reviewed_at,
    check_status-Returns e.status,
  )

  pub decode_entry-Returns : (v : Value) → Returns (decode_entry crates v)
  unfolding decode_entry
  decode_entry-Returns v =
      Returns-bind (ok_or (entry_of crates (events v)) _) _ (Returns-ok_or _ _)
        λ e _. check_entry-Returns e

  abbrev gathered : Decoded crates → List CatalogEntry → List ℕ → Decoded crates
  gathered d es is = record { entries = d.entries ++ es; skipped = d.skipped ++ is }

  -- One round, the later rounds given.
  keep-eq-ok :
      (i : ℕ) (r : Result CatalogEntry) (es : List CatalogEntry) (is : List ℕ)
      (rest : Decoded crates → Result (Decoded crates)) (d : Decoded crates)
      → Returns r
      → ((d' : Decoded crates) → rest d' ≡ ok (gathered d' es is))
      → (keep crates i r d >>= rest) ≡ ok (gathered d (add_entry r es) (add_index i r is))
  unfolding keep
  keep-eq-ok i (ok e) es is rest d h later = later _ ∙ rw append_assoc
  keep-eq-ok i (err e) es is rest d h later = later _ ∙ rw append_assoc
  keep-eq-ok i panic es is rest d h later = absurd (h refl)

  decode_from-eq-ok :
      (i : ℕ) (vs : List Value) (d : Decoded crates)
      → decode_from crates i vs d ≡ ok (gathered d (decodable crates vs) (undecodable crates i vs))
  unfolding decode_from decodable undecodable
  decode_from-eq-ok i [] d = simp append-nil
  decode_from-eq-ok i (v ∷ vs) d =
      keep-eq-ok i (decode_entry crates v) (decodable crates vs) (undecodable crates (suc i) vs)
        (decode_from crates (suc i) vs) d (decode_entry-Returns v) (decode_from-eq-ok (suc i) vs)

reject_iff :
    (seen : List Text) (es : List CatalogEntry)
    → (reject_duplicate_components seen es ≡ ok tt) ↔ NewIn seen (ids es)
unfolding reject_duplicate_components
reject_iff seen [] = ground arith
reject_iff seen (e ∷ es) =
    ground (arith, contains_iff seen e.component_id, reject_iff (e.component_id ∷ seen) es)

reject_duplicate_components-Returns :
    (seen : List Text) (es : List CatalogEntry) → Returns (reject_duplicate_components seen es)
unfolding reject_duplicate_components
reject_duplicate_components-Returns seen [] = λ p. cc
reject_duplicate_components-Returns seen (e ∷ es) =
    ground (arith, reject_duplicate_components-Returns (e.component_id ∷ seen) es)

-- With at most 512 entries, decoding gives exactly the entries that decode, in their order, and the
-- positions of all others, provided that no two of them name one component; otherwise it refuses.
pub decode_entries_iff :
    (crates : Crates)
    → HexLaws crates
    → (vs : List Value) (d : Decoded crates)
    → (decode_entries crates vs ≡ ok d) ↔ (
        (length vs ≤ max_entries)
        × Distinct (ids (decodable crates vs))
        × (d ≡ record { entries = decodable crates vs; skipped = undecodable crates 0 vs }))
unfolding decode_entries
decode_entries_iff crates laws vs d =
    rw (decode_from-eq-ok crates laws 0 vs (record { entries = []; skipped = [] })) (
      ground
        (arith, reject_iff [] (decodable crates vs), NewIn-Distinct (ids (decodable crates vs))))

pub decode_entries-Returns :
    (crates : Crates) → HexLaws crates → (vs : List Value) → Returns (decode_entries crates vs)
unfolding decode_entries
decode_entries-Returns crates laws vs =
    rw (decode_from-eq-ok crates laws 0 vs (record { entries = []; skipped = [] }))
      (ground (arith, reject_duplicate_components-Returns [] (decodable crates vs)))
