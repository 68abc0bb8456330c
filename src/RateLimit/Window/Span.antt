-- ===== src/RateLimit/Window/Span.antt =====
-- How many requests the limiter (controller/src/ratelimit.rs) lets through in any stretch of time
-- that is shorter than its window, wherever the stretch lies.
use Prim.Native.Nat.{max}
use pokemon_rs.Prelude.{
  ℕ, ◌+◌, ◌-◌, ◌^◌, ◌≤◌, ◌<◌, ◌≡◌, refl, inl, inr, Option, none, some, List, [], ◌∷◌, arith, ltb,
  if◌then◌else◌, Bool-cases, Option-cases, All, Text, text_eq,
}
use pokemon_rs.Prelude.Map.{get}
use pokemon_rs.RateLimit.{RateLimiter, Instant, check}
use pokemon_rs.RateLimit.Window.{
  allowed, IsOpen, Has, check_open, check_first, check_expired, allowed_open,
}

-- The time `t` lies in the stretch of length `w` from `t0` on.
abbrev pub Within : ℕ → Instant → Instant → Type 0
Within w t0 t = (t0 ≤ t) × (t - t0 < w)

opens :
    (w : ℕ) (t0 t : Instant) (ts : List Instant)
    → t0 ≤ t
    → All (Within w t0) ts
    → All (IsOpen w t) ts
opens w t0 t [] low h = tt
opens w t0 t (u ∷ ts) low ((low', close), h) = (omega arith, opens w t0 t ts low h)

allowed_entry :
    (key : Text) (t0 start count w m : ℕ) (ts : List Instant) (r : RateLimiter)
    → get key r.inner ≡ some (start, count)
    → Has m w r
    → m < 2 ^ 32
    → All (Within w t0) ts
    → allowed key ts r ≤ (m - count) + max 1 m
allowed_entry key t0 start count w m [] r found has small h = omega arith
allowed_entry key t0 start count w m (t ∷ ts) r found has small ((low, close), h) =
    let r' = (check key t r).0 in
    elim (Bool-cases (ltb (t - start) w)) [
      | inl open_ ↦
          let (has', decision, found') =
            check_open key start count t m w r found has small (ground (arith, open_)) in
          let next = if ltb count m then count + 1 else count in
          let later = allowed_entry key t0 start next w m ts r' found' has' small h in
          ground (arith, decision, later)
      | inr closed ↦
          let (has', decision, found') =
            check_expired key start count t m w r found has (ground (arith, closed)) in
          let later = allowed_open key t 1 w m ts r' found' has' small (opens w t0 t ts low h) in
          ground (arith, decision, later)
    ]

-- What a key has left of its window.
abbrev pub left_of : ℕ → Option (Instant × ℕ) → ℕ
left_of m none = 0
left_of m (some (start, count)) = m - count

-- Whatever the limiter has seen of a key before, of the requests that it makes in any stretch of
-- time shorter than the window no more are allowed than were left of the window that it has, and
-- one full window: `max_requests`, a 32-bit number, but one if the limit is 0.
pub allowed_span :
    (key : Text) (t0 : Instant) (ts : List Instant) (r : RateLimiter)
    → r.max_requests < 2 ^ 32
    → All (Within r.window t0) ts
    → allowed key ts r ≤ left_of r.max_requests (get key r.inner) + max 1 r.max_requests
allowed_span key t0 [] r small h = omega arith
allowed_span key t0 (t ∷ ts) r small ((low, close), h) =
    let m = r.max_requests in
    elim (Option-cases (get key r.inner)) [
      | inl fresh ↦
          let (has', decision, found') =
            check_first key t m r.window r fresh (refl, refl) small (omega arith) in
          let count = if ltb 0 m then 1 else 0 in
          let later =
            allowed_open key t count r.window m ts (check key t r).0 found' has' small
              (opens r.window t0 t ts low h) in
          rw fresh (ground (arith, decision, later))
      | inr ((start, count), found) ↦
          let bound =
            allowed_entry key t0 start count r.window m (t ∷ ts) r found (refl, refl) small
              ((low, close), h) in
          rw found bound
    ]
