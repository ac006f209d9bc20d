-- ===== src/Build/Plain.antt =====
-- src/build.rs: the documents that a build writes have ordered keys, no floats and little depth.
use onym_discovery.Prelude.{
  ℕ, suc, Text, Bytes, text, ◌≡◌, sym, subst, Option, none, some, List, [], ◌∷◌, All, map, arith,
}
use onym_discovery.Result.{ok, >>=-eq-ok, ok_or}
use onym_discovery.Error.{malformed, entry_not_an_object, entry_schema}
use onym_discovery.Json.{Value, string, object, Members, end, of_values, as_object, events}
use onym_discovery.Json.Regular.{Regular, RegularValues, IsObject, IsObject-insert}
use onym_discovery.Crates.{Crates, Attempt}
use onym_discovery.Types.Records.{CatalogEntry, EntryStatus, ManifestRef, SnapshotConfig}
use onym_discovery.Types.Entry.{entry_of}
use onym_discovery.Build.{
  unless_none, option_map, ref_members, status_members, optional_members, entry_members,
  document_members, object_with, value_of_ref, value_of_status, value_of_entry, document,
  check_listed, resolve_entry, resolve_entries, pin,
}

abbrev Plain : ℕ → Text × Value → Type 0
Plain d (k, v) = Regular d v

object_with-IsObject :
    (d : ℕ) (kvs : List (Text × Value)) (ms : Members)
    → All (Plain d) kvs
    → IsObject d ms
    → IsObject d (object_with kvs ms)
object_with-IsObject d [] ms a o = o
object_with-IsObject d ((k, v) ∷ kvs) ms (r, a) o =
    object_with-IsObject d kvs _ a (IsObject-insert d k v ms r o)

strings-Regular : (d : ℕ) (ss : List Text) → RegularValues d (of_values (map string ss))
unfolding Regular
strings-Regular d [] = tt
strings-Regular d (s ∷ ss) = (tt, strings-Regular d ss)

value_of_ref-Regular : (d : ℕ) (r : ManifestRef) → Regular (suc d) (value_of_ref r)
unfolding value_of_ref Regular
value_of_ref-Regular d r = object_with-IsObject d (ref_members r) end (tt, (tt, tt)) (tt, tt)

status-Regular :
    (d : ℕ) (state : Text) (uri : Option Text)
    → Regular (suc d) (value_of_status (record { state = state; uri = uri }))
unfolding value_of_status Regular
status-Regular d state none =
    object_with-IsObject d (status_members (record { state = state; uri = none })) end (tt, tt)
      (tt, tt)
status-Regular d state (some uri) =
    object_with-IsObject d (status_members (record { state = state; uri = some uri })) end
      (tt, (tt, tt)) (tt, tt)

optional-Plain :
    (reviewed : Option Text) (status : Option EntryStatus)
    → All (Plain 124) (optional_members reviewed status)
unfolding Regular
optional-Plain none none = tt
optional-Plain none (some s) = (status-Regular 123 s.state s.uri, tt)
optional-Plain (some r) none = (tt, tt)
optional-Plain (some r) (some s) = (tt, (status-Regular 123 s.state s.uri, tt))

value_of_entry-Regular : (e : CatalogEntry) → e.evidence ≡ [] → Regular 125 (value_of_entry e)
unfolding value_of_entry Regular
value_of_entry-Regular e none_given =
    object_with-IsObject 124 (entry_members e) end
      (
        tt,
        (
          tt,
          (
            value_of_ref-Regular 123 e.manifest,
            (
              tt,
              (
                strings-Regular 123 e.profiles,
                (
                  subst (λ vs. RegularValues 123 (of_values vs)) (sym none_given) tt,
                  (tt, (tt, (tt, optional-Plain e.reviewed_at e.status))),
                ),
              ),
            ),
          ),
        ),
      )
      (tt, tt)

pub check_listed-empty :
    (crates : Crates) (e : CatalogEntry) → check_listed crates e ≡ ok tt → e.evidence ≡ []
unfolding check_listed
check_listed-empty crates e h = ground arith

module _ (crates : Crates) (read_file : Text → Attempt Bytes) where
  resolve_entry-Regular :
      (raw v : Value) → resolve_entry crates read_file raw ≡ ok v → Regular 125 v
  unfolding resolve_entry
  resolve_entry-Regular raw v h =
      let (ms, _, h0) = >>=-eq-ok (ok_or (as_object raw) (malformed entry_not_an_object)) _ h in
      let (pinned, _, h1) = >>=-eq-ok (pin crates read_file ms) _ h0 in
      let (e, _, h2) =
        >>=-eq-ok (ok_or (entry_of crates (events (object pinned))) (malformed entry_schema)) _
          h1 in
      let (_, checked, h3) = >>=-eq-ok (check_listed crates e) _ h2 in
      subst (Regular 125) (ground (arith, h3))
        (value_of_entry-Regular e (check_listed-empty crates e checked))

  pub resolve_entries-Regular :
      (raws vs : List Value)
      → resolve_entries crates read_file raws ≡ ok vs
      → RegularValues 125 (of_values vs)
  unfolding resolve_entries Regular
  resolve_entries-Regular [] vs h =
      subst (λ xs. RegularValues 125 (of_values xs)) {x = []} (ground (arith, h)) tt
  resolve_entries-Regular (raw ∷ raws) vs h =
      let (v, e, h0) = >>=-eq-ok (resolve_entry crates read_file raw) _ h in
      let (ws, e', h1) = >>=-eq-ok (resolve_entries crates read_file raws) _ h0 in
      subst (λ xs. RegularValues 125 (of_values xs)) {x = v ∷ ws} (ground (arith, h1))
        (resolve_entry-Regular raw v e, resolve_entries-Regular raws ws e')

previous-Plain :
    (d : Option Text)
    → All (Plain 126) (unless_none (text "previousDigest") (option_map string d) [])
unfolding Regular
previous-Plain none = tt
previous-Plain (some d) = (tt, tt)

pub document-Regular :
    (config : SnapshotConfig) (n : ℕ) (d : Option Text) (g e : Text) (entries : List Value)
    → RegularValues 125 (of_values entries)
    → Regular 127 (document config n d g e entries)
unfolding document Regular
document-Regular config n d g e entries r =
    object_with-IsObject 126 (document_members config n d g e entries) end
      (tt, (tt, (tt, (tt, (tt, (tt, (tt, (tt, (r, previous-Plain d))))))))) (tt, tt)
