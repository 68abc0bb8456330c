-- ===== src/RateLimit/Window.antt =====
-- How many requests the limiter (controller/src/ratelimit.rs) lets through in one window.
pub mod Span
use Prim.Native.Nat.{min, max}
use pokemon_rs.Prelude.{
  ℕ, suc, ◌+◌, ◌-◌, ◌^◌, ◌≤◌, ◌<◌, ◌≡◌, refl, true, none, some, List, [], ◌∷◌, arith, ltb,
  if◌then◌else◌, length, All, Text, text_eq,
}
use pokemon_rs.Prelude.Map.{get, get-insert_self}
use pokemon_rs.RateLimit.{RateLimiter, Instant, admit, check}

-- How many of the requests for a key, at the given times, are allowed.
abbrev pub allowed : Text → List Instant → RateLimiter → ℕ
allowed key [] r = 0
allowed key (t ∷ ts) r =
    let (r', yes_) = check key t r in
    let rest = allowed key ts r' in if yes_ then suc rest else rest

-- The window of length `w` that began at `start` is still open at the time `t`.
abbrev pub IsOpen : ℕ → Instant → Instant → Type 0
IsOpen w start t = t - start < w

-- The limiter's settings.
abbrev Has : ℕ → ℕ → RateLimiter → Type 0
Has m w r = (r.max_requests ≡ m) × (r.window ≡ w)

-- One request in an open window.
check_open :
    (key : Text) (start count t m w : ℕ) (r : RateLimiter)
    → get key r.inner ≡ some (start, count)
    → Has m w r
    → m < 2 ^ 32
    → IsOpen w start t
    → let (r', ok_) = check key t r in
      Has m w r'
      × (ok_ ≡ ltb count m)
      × (get key r'.inner ≡ some (start, (if ltb count m then count + 1 else count)))
unfolding check admit
check_open key start count t m w r found has small open_ = ground (
  arith,
  get-insert_self key (if ltb count m then (start, count + 1) else (start, count)) r.inner,
)

allowed_open :
    (key : Text) (start count w m : ℕ) (ts : List Instant) (r : RateLimiter)
    → get key r.inner ≡ some (start, count)
    → Has m w r
    → m < 2 ^ 32
    → All (IsOpen w start) ts
    → allowed key ts r ≡ min (length ts) (m - count)
allowed_open key start count w m [] r found has small opens = omega arith
allowed_open key start count w m (t ∷ ts) r found has small (open_, opens) =
    let (has', decision, found') = check_open key start count t m w r found has small open_ in
    let r' = (check key t r).0 in
    let next = if ltb count m then count + 1 else count in
    ground (arith, decision, allowed_open key start next w m ts r' found' has' small opens)

-- The first request of a key.
check_first :
    (key : Text) (t m w : ℕ) (r : RateLimiter)
    → get key r.inner ≡ none
    → Has m w r
    → m < 2 ^ 32
    → 0 < w
    → let (r', ok_) = check key t r in
      Has m w r' × (ok_ ≡ ltb 0 m) × (get key r'.inner ≡ some (t, (if ltb 0 m then 1 else 0)))
unfolding check admit
check_first key t m w r found has small pos_ =
    ground (arith, get-insert_self key (if ltb 0 m then (t, 1) else (t, 0)) r.inner)

-- The first request after the key's window has closed.
check_expired :
    (key : Text) (start count t m w : ℕ) (r : RateLimiter)
    → get key r.inner ≡ some (start, count)
    → Has m w r
    → w ≤ t - start
    → let (r', ok_) = check key t r in Has m w r' × (ok_ ≡ true) × (get key r'.inner ≡ some (t, 1))
unfolding check admit
check_expired key start count t m w r found has old =
    ground (arith, get-insert_self key (t, 1) r.inner)

-- Of the requests of a key that the limiter has not met, all of them made within one window, which
-- is not empty, from the first, exactly the first `max_requests`, a 32-bit number, are allowed.
pub allowed_first_window :
    (key : Text) (t : Instant) (ts : List Instant) (r : RateLimiter)
    → get key r.inner ≡ none
    → r.max_requests < 2 ^ 32
    → 0 < r.window
    → All (IsOpen r.window t) ts
    → allowed key (t ∷ ts) r ≡ min (length (t ∷ ts)) r.max_requests
allowed_first_window key t ts r found small pos_ opens =
    let m = r.max_requests in
    let (has', decision, found') = check_first key t m r.window r found (refl, refl) small pos_ in
    let count = if ltb 0 m then 1 else 0 in
    let rest : allowed key ts (check key t r).0 ≡ min (length ts) (m - count) =
      allowed_open key t count r.window m ts (check key t r).0 found' has' small opens in
    ground (arith, decision, rest)

-- When a key's window has closed, the next request is allowed and opens a new window, in which
-- further requests are allowed up to the limit: `max_requests`, a 32-bit number, in all, but one
-- if the limit is 0.
pub allowed_next_window :
    (key : Text) (start count : ℕ) (t : Instant) (ts : List Instant) (r : RateLimiter)
    → get key r.inner ≡ some (start, count)
    → r.window ≤ t - start
    → r.max_requests < 2 ^ 32
    → All (IsOpen r.window t) ts
    → allowed key (t ∷ ts) r ≡ min (length (t ∷ ts)) (max 1 r.max_requests)
allowed_next_window key start count t ts r found old small opens =
    let m = r.max_requests in
    let (has', decision, found') =
      check_expired key start count t m r.window r found (refl, refl) old in
    ground (
      arith,
      decision,
      allowed_open key t 1 r.window m ts (check key t r).0 found' has' small opens,
    )
