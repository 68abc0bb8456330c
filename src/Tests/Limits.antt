-- ===== src/Tests/Limits.antt =====
-- The theorems of the rate limiter at a limit of two requests a minute.
use Prim.Native.Nat.{min, max}
use pokemon_rs.Prelude.{◌+◌, ◌*◌, ◌≤◌, ◌≡◌, refl, true, [], ◌∷◌, arith, codes, text_eq}
use pokemon_rs.Prelude.Map.{get}
use pokemon_rs.RateLimit.{RateLimiter, check, retry_after_seconds, admit, nanos_per_sec}
use pokemon_rs.RateLimit.Window.{allowed, allowed_first_window, allowed_next_window}
use pokemon_rs.RateLimit.Window.Span.{left_of, allowed_span}
use pokemon_rs.RateLimit.Retry.{check-retry_after}
use pokemon_rs.Tests.{sample_limiter}

-- The key "a" has used up its window, which began at 5 seconds.
abbrev full : RateLimiter
full = record sample_limiter { inner = (codes "a", (5_000_000_000, 2)) ∷ [] }

allowed_first_window_example : allowed (codes "a") (1 ∷ 2 ∷ 3 ∷ []) sample_limiter ≡ min 3 2
unfolding get
allowed_first_window_example =
    allowed_first_window (codes "a") 1 (2 ∷ 3 ∷ []) sample_limiter refl (omega arith) (omega arith)
      (omega arith, (omega arith, tt))

allowed_next_window_example :
    allowed (codes "a") (65_000_000_000 ∷ 65_000_000_001 ∷ []) full ≡ min 2 (max 1 2)
unfolding get
allowed_next_window_example =
    allowed_next_window (codes "a") 5_000_000_000 2 65_000_000_000 (65_000_000_001 ∷ []) full refl
      (omega arith) (omega arith) (omega arith, tt)

check-retry_after_example :
    let r' = (check (codes "a") 6_000_000_000 full).0 in
    let wait = retry_after_seconds (codes "a") 7_500_000_000 r' in
    (1 ≤ wait)
    × (wait ≤ 60)
    × ((check (codes "a") (7_500_000_000 + wait * nanos_per_sec) r').1 ≡ true)
unfolding get check admit
check-retry_after_example =
    check-retry_after (codes "a") 60 5_000_000_000 2 6_000_000_000 7_500_000_000 full refl
      (omega arith) refl (omega arith) (omega arith) refl

-- Three requests from the middle of the window to the middle of the next.
allowed_span_example :
    allowed (codes "a") (40_000_000_000 ∷ 65_000_000_000 ∷ 70_000_000_000 ∷ []) full
    ≤ left_of 2 (get (codes "a") full.inner) + max 1 2
allowed_span_example =
    allowed_span (codes "a") 40_000_000_000 (40_000_000_000 ∷ 65_000_000_000 ∷ 70_000_000_000 ∷ [])
      full (omega arith)
      ((omega arith, omega arith), ((omega arith, omega arith), ((omega arith, omega arith), tt)))
