-- ===== src/RateLimit.antt =====
-- controller/src/ratelimit.rs: the fixed-window rate limiter. An `Instant` is a number of
-- nanoseconds and a `Duration` too; `duration_since` stops at zero, as `-` does. The clock is an
-- argument. The lock is not poisoned, since nothing panics under it.
pub mod Window
pub mod Retry
use Prim.Native.Nat.{max}
use pokemon_rs.Prelude.{
  ℕ, ◌+◌, ◌-◌, ◌/◌, ◌%◌, ◌^◌, Bool, true, false, Option, none, some, [], ltb, leb, if◌then◌else◌,
  Text, text_eq,
}
use pokemon_rs.Prelude.Map.{HashMap, get, insert}

abbrev pub nanos_per_sec : ℕ
nanos_per_sec = 1_000_000_000

abbrev pub Instant : Type 0
Instant = ℕ

pub record RateLimiter : Type 0 where
  pub inner : HashMap Text (Instant × ℕ)
  pub max_requests : ℕ  -- u32
  pub window : ℕ

unfoldable pub new : ℕ → ℕ → RateLimiter
new max_requests window = record { inner = []; max_requests = max_requests; window = window }

-- `*g.entry(key).or_insert((now, 0))`
abbrev pub entry_or : Option (Instant × ℕ) → Instant → Instant × ℕ
entry_or none now = (now, 0)
entry_or (some e) now = e

-- The new entry, and whether the request is allowed.
unfoldable pub admit : ℕ → ℕ → Instant → Instant × ℕ → (Instant × ℕ) × Bool
admit max_requests window now (start, count) =
    if leb window (now - start)
    then ((now, 1), true)
    else if leb max_requests count
    then ((start, count), false)
    else ((start, (count + 1) % 2 ^ 32), true)

unfoldable pub check : Text → Instant → RateLimiter → RateLimiter × Bool
check key now r =
    let (entry, allowed) = admit r.max_requests r.window now (entry_or (get key r.inner) now) in
    (record r { inner = insert key entry r.inner }, allowed)

-- `self.window.as_secs().saturating_sub(elapsed.as_secs()).max(1)` on the entry, if it applies.
unfoldable pub retry_entry : ℕ → ℕ → Instant → Option (Instant × ℕ) → ℕ
retry_entry max_requests window now none = 1
retry_entry max_requests window now (some (start, count)) =
    if leb max_requests count
    then (if ltb (now - start) window
        then max (window / nanos_per_sec - (now - start) / nanos_per_sec) 1
        else 1)
    else 1

unfoldable pub retry_after_seconds : Text → Instant → RateLimiter → ℕ
retry_after_seconds key now r = retry_entry r.max_requests r.window now (get key r.inner)
