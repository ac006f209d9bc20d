-- ===== src/Build/Timely.antt =====
-- src/build.rs against src/verify.rs: a build's times are fresh while it lasts.
use onym_discovery.Prelude.{ℕ, ◌+◌, ◌-◌, ◌%◌, ◌≤◌, ◌<◌, ◌≡◌, Text, some, arith}
use onym_discovery.Result.{ok, >>=-eq-ok, expect}
use onym_discovery.Crates.{Crates, add_duration}
use onym_discovery.Crates.Laws.{TimeLaws, second}
use onym_discovery.Types.Constants.{days, clock_skew, max_expiry_window}
use onym_discovery.Types.Fields.{format_timestamp, parse_timestamp}
use onym_discovery.Types.Records.{CatalogSnapshot, SnapshotConfig}
use onym_discovery.Build.{check_config}
use onym_discovery.Verify.Snapshot.{check_freshness}

check_freshness-times :
    (crates : Crates) (s : CatalogSnapshot) (from until now : ℕ)
    → parse_timestamp crates s.generated_at ≡ ok from
    → parse_timestamp crates s.expires_at ≡ ok until
    → from < until
    → until ≤ from + max_expiry_window
    → from ≤ now + clock_skew
    → now ≤ until + clock_skew
    → now + clock_skew ≤ crates.last_instant
    → until + clock_skew ≤ crates.last_instant
    → check_freshness crates s now ≡ ok tt
unfolding check_freshness add_duration
check_freshness-times crates s from until now g e ordered bounded begun lasts room room' =
    ground arith

module _ (crates : Crates) (time : TimeLaws crates) where
  -- A time is written without its part of a second.
  pub parse-format_timestamp :
      (t : ℕ) (s : Text)
      → t ≤ crates.last_instant
      → format_timestamp crates t ≡ ok s
      → parse_timestamp crates s ≡ ok (t - t % second)
  unfolding format_timestamp parse_timestamp
  parse-format_timestamp t s bound h =
      let w = time.whole_second t bound in
      let (u, e, f) = >>=-eq-ok (expect (crates.replace_millisecond t 0)) _ h in
      let same : u ≡ t - t % second = ground (arith, e, w) in
      let g : crates.format_rfc3339 (t - t % second) ≡ some s = ground (arith, f, same) in
      ground (arith, time.format-ends (t - t % second) s g, time.parse-format (t - t % second) s g)

  pub check_freshness-built :
      (s : CatalogSnapshot) (from until now lasting : ℕ)
      → format_timestamp crates from ≡ ok s.generated_at
      → format_timestamp crates until ≡ ok s.expires_at
      → until ≡ from + days lasting
      → 0 < lasting
      → lasting ≤ 90
      → from ≤ now + clock_skew
      → now ≤ until
      → now + clock_skew ≤ crates.last_instant
      → until + clock_skew ≤ crates.last_instant
      → check_freshness crates s now ≡ ok tt
  check_freshness-built s from until now lasting g e sum some_days few begun lasts room room' =
      check_freshness-times crates s (from - from % second) (until - until % second) now
        (parse-format_timestamp from s.generated_at (omega arith) g)
        (parse-format_timestamp until s.expires_at (omega arith) e) (omega arith) (omega arith)
        (omega arith) (omega arith) room (omega arith)

pub check_config-lasting :
    (config : SnapshotConfig)
    → check_config config ≡ ok tt
    → (0 < config.expiry_days) × (config.expiry_days ≤ 90)
unfolding check_config
check_config-lasting config h = ground (arith, h)
