-- ===== src/Metrics.antt =====
-- controller/src/metrics.rs: lifecycle counters, 64-bit atomics that wrap around.
use pokemon_rs.Prelude.{ℕ, ◌+◌, ◌%◌, ◌^◌, Text}

pub record SessionMetrics : Type 0 where
  pub sessions_created : ℕ
  pub sessions_completed : ℕ
  pub sessions_playing : ℕ

-- `fetch_add(1)`
abbrev pub fetch_add_one : ℕ → ℕ
fetch_add_one n = (n + 1) % 2 ^ 64

unfoldable pub new : SessionMetrics
new = record { sessions_created = 0; sessions_completed = 0; sessions_playing = 0 }

unfoldable pub record_session_created : SessionMetrics → SessionMetrics
record_session_created m = record m { sessions_created = fetch_add_one m.sessions_created }

unfoldable pub record_session_completed : SessionMetrics → SessionMetrics
record_session_completed m = record m { sessions_completed = fetch_add_one m.sessions_completed }

unfoldable pub record_session_playing : SessionMetrics → SessionMetrics
record_session_playing m = record m { sessions_playing = fetch_add_one m.sessions_playing }

unfoldable pub get_sessions_created : SessionMetrics → ℕ
get_sessions_created m = m.sessions_created

unfoldable pub get_sessions_completed : SessionMetrics → ℕ
get_sessions_completed m = m.sessions_completed

-- It does nothing yet.
unfoldable pub record_request_latency_ms : Text → ℕ → Unit {0}
record_request_latency_ms route ms = tt
