-- ===== src/Types/Constants.antt =====
-- src/types.rs: the constants. A duration is in nanoseconds.
use onym_discovery.Prelude.{ℕ, ◌*◌, Text, text, List, [], ◌∷◌}

abbrev pub implementation_profile : Text
unfolding text
implementation_profile = text "onym:discovery-implementation:static-ed25519-v1"

abbrev pub max_manifest_bytes : ℕ
max_manifest_bytes = 64 * 1024

abbrev pub max_snapshot_bytes : ℕ
max_snapshot_bytes = 1024 * 1024

abbrev pub max_destination_manifest_bytes : ℕ
max_destination_manifest_bytes = 256 * 1024

abbrev pub max_entries : ℕ
max_entries = 512

-- `time::Duration::days`
abbrev pub days : ℕ → ℕ
days n = n * 86_400_000_000_000

abbrev pub max_expiry_window_days : ℕ
max_expiry_window_days = 90

abbrev pub max_expiry_window : ℕ
max_expiry_window = days max_expiry_window_days

-- ten minutes
abbrev pub clock_skew : ℕ
clock_skew = 600_000_000_000

abbrev pub status_states : List Text
status_states = text "warning" ∷ text "review" ∷ []

abbrev pub relationships : List Text
relationships =
    text "none"
    ∷ text "catalog-subscriber"
    ∷ text "listing-fee"
    ∷ text "sponsored-placement"
    ∷ text "common-owner"
    ∷ text "catalog-sponsor"
    ∷ text "other-disclosed"
    ∷ []

abbrev pub placements : List Text
placements = text "policy-ranked" ∷ text "sponsored" ∷ []
