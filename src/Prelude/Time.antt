-- ===== src/Prelude/Time.antt =====
-- A point in time is the number of microseconds since the Unix epoch, PostgreSQL's resolution of
-- TIMESTAMP; a duration is a number of microseconds.
use Prim.Native.Nat.{ℕ, ◌*◌, ◌/◌}

abbrev pub Timestamp : Type 0
Timestamp = ℕ

-- `Duration::seconds`, `Duration::minutes`, `Duration::hours` and `Duration::days`.
abbrev pub seconds : ℕ → ℕ
seconds n = n * 1_000_000

abbrev pub minutes : ℕ → ℕ
minutes n = n * 60_000_000

abbrev pub hours : ℕ → ℕ
hours n = n * 3_600_000_000

abbrev pub days : ℕ → ℕ
days n = n * 86_400_000_000

-- `Duration::num_seconds` of a duration that is not negative.
abbrev pub num_seconds : ℕ → ℕ
num_seconds d = d / 1_000_000
