-- ===== src/RateLimit/Retry.antt =====
-- Keys do not interfere, and `Retry-After` is long enough (controller/src/ratelimit.rs).
use pokemon_rs.Prelude.{
  ℕ, ◌+◌, ◌-◌, ◌*◌, ◌≤◌, ◌≡◌, ◌≢◌, true, false, some, arith, Text, text_beq_iff, text_eq,
}
use pokemon_rs.Prelude.Map.{get, get-insert, get-insert_self}
use pokemon_rs.RateLimit.{
  RateLimiter, Instant, nanos_per_sec, entry_or, admit, check, retry_entry, retry_after_seconds,
}

-- A request changes the entry of its own key alone: it alters no other key's answer or waiting
-- time.
pub check_independent :
    (k j : Text) (t u : Instant) (r : RateLimiter)
    → k ≢ j
    → ((check j u (check k t r).0).1 ≡ (check j u r).1)
      × (retry_after_seconds j u (check k t r).0 ≡ retry_after_seconds j u r)
unfolding check retry_after_seconds
check_independent k j t u r differ = ground (
  arith,
  text_beq_iff k j,
  get-insert k j (admit r.max_requests r.window t (entry_or (get k r.inner) t)).0 r.inner,
)

-- What a refusal says of the entry, which it leaves as it was.
check_refused :
    (key : Text) (start count : ℕ) (now : Instant) (r : RateLimiter)
    → get key r.inner ≡ some (start, count)
    → (check key now r).1 ≡ false
    → let r' = (check key now r).0 in
      (r'.window ≡ r.window)
      × (r'.max_requests ≡ r.max_requests)
      × (get key r'.inner ≡ some (start, count))
      × (r.max_requests ≤ count)
unfolding check admit
check_refused key start count now r found refused =
    ground (arith, get-insert_self key (start, count) r.inner)

-- The waiting time for an exhausted entry.
retry_entry_bounds :
    (m secs start count ask : ℕ)
    → 1 ≤ secs
    → m ≤ count
    → start ≤ ask
    → let wait = retry_entry m (secs * nanos_per_sec) ask (some (start, count)) in
      (1 ≤ wait) × (wait ≤ secs) × (secs * nanos_per_sec ≤ ask + wait * nanos_per_sec - start)
unfolding retry_entry
retry_entry_bounds m secs start count ask one full past = ground arith

check_late :
    (key : Text) (start count : ℕ) (now : Instant) (r : RateLimiter)
    → get key r.inner ≡ some (start, count)
    → r.window ≤ now - start
    → (check key now r).1 ≡ true
unfolding check admit
check_late key start count now r found late = ground arith

-- With a window of whole seconds, a client that is refused, asks at any later time how long to
-- wait, and waits so many seconds is allowed; the answer is at least 1 and at most the window.
pub check-retry_after :
    (key : Text) (secs start count : ℕ) (now ask : Instant) (r : RateLimiter)
    → r.window ≡ secs * nanos_per_sec
    → 1 ≤ secs
    → get key r.inner ≡ some (start, count)
    → start ≤ now
    → now ≤ ask
    → (check key now r).1 ≡ false
    → let r' = (check key now r).0 in
      let wait = retry_after_seconds key ask r' in
      (1 ≤ wait) × (wait ≤ secs) × ((check key (ask + wait * nanos_per_sec) r').1 ≡ true)
unfolding retry_after_seconds
check-retry_after key secs start count now ask r win one found past later refused =
    let (win', lim', found', full) = check_refused key start count now r found refused in
    let r' = (check key now r).0 in
    let wait = retry_entry r.max_requests (secs * nanos_per_sec) ask (some (start, count)) in
    let (low, high, long) =
      retry_entry_bounds r.max_requests secs start count ask one full (omega arith) in
    let same : retry_after_seconds key ask r' ≡ wait = ground arith in
    rw same
      (low, high, check_late key start count (ask + wait * nanos_per_sec) r' found' (omega arith))
