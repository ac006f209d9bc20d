-- ===== src/Build/Listed.antt =====
-- src/build.rs against src/verify.rs: which of the entries that a build lists the verifier keeps.
use onym_discovery.Prelude.{◌≡◌, ◌↔◌, refl, sym, subst, ap, ◌∙◌, Text, Bytes, arith}
use onym_discovery.Error.{malformed, entry_not_an_object, entry_schema}
use onym_discovery.Result.{ok, >>=-eq-ok, ok_or}
use onym_discovery.Json.{Value, object, events, as_object, of_values}
use onym_discovery.Json.Regular.{Regular, RegularValues}
use onym_discovery.Crates.{Crates, Attempt}
use onym_discovery.Crates.Laws.{JsonLaws, max_depth}
use onym_discovery.Types.Entry.{entry_of}
use onym_discovery.Types.Records.{CatalogEntry}
use onym_discovery.Verify.Entry.{check_entry, decode_entry}
use onym_discovery.Build.{value_of_entry, check_listed, pin, resolve_entry}
use onym_discovery.Build.Plain.{check_listed-empty}
use onym_discovery.Build.Entry.{entry_of-value}
use onym_discovery.Build.Checked.{IsDated, check_entry_iff}

module _ (crates : Crates) (json : JsonLaws crates) where
  decode_entry-value :
      (e : CatalogEntry)
      → check_listed crates e ≡ ok tt
      → decode_entry crates (value_of_entry e) ≡ check_entry crates e
  unfolding decode_entry Regular
  decode_entry-value e rules =
      let empty = check_listed-empty crates e rules in
      rw
        (entry_of-value crates json e
          (subst (λ vs. RegularValues max_depth (of_values vs)) (sym empty) tt))
        refl

-- What a build lists is a typed entry that keeps the builder's rules, written out, and the verifier
-- decodes it, to that same entry, exactly when it also names a seat type and bears readable times.
pub resolve_entry-decodes :
    (crates : Crates)
    → JsonLaws crates
    → (read_file : Text → Attempt Bytes) (raw v : Value) → resolve_entry crates read_file raw ≡ ok v
    → (e : CatalogEntry) × (v ≡ value_of_entry e)
      × (check_listed crates e ≡ ok tt)
      × ((decode_entry crates v ≡ ok e) ↔ IsDated crates e)
unfolding resolve_entry
resolve_entry-decodes crates json read_file raw v h =
    let (ms, _, h0) = >>=-eq-ok (ok_or (as_object raw) (malformed entry_not_an_object)) _ h in
    let (pinned, _, h1) = >>=-eq-ok (pin crates read_file ms) _ h0 in
    let (e, _, h2) =
      >>=-eq-ok (ok_or (entry_of crates (events (object pinned))) (malformed entry_schema)) _ h1 in
    let (_, rules, h3) = >>=-eq-ok (check_listed crates e) _ h2 in
    let written : v ≡ value_of_entry e = ground (arith, h3) in
    let (to, from) = check_entry_iff crates e in
    let same : decode_entry crates v ≡ check_entry crates e =
      ap (decode_entry crates) written ∙ decode_entry-value crates json e rules in
    (e, written, rules, ((λ d. (to (sym same ∙ d)).1), (λ dated. same ∙ from (rules, dated))))
