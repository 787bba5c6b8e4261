-- ===== src/Executor/Liveness.antt =====
-- `Liveness`: when the executor counts as stuck (rust/src/executor.rs). Times are milliseconds since
-- the epoch of the clock.
use zte_u60_pro_mu5250_data.Common.{
  ℕ, ◌+◌, ◌-◌, ◌≤◌, ◌<◌, Bool, true, false, ◌&&◌, not, ltb, ◌==◌, if◌then◌else◌, ◌≡◌, arith,
}

abbrev pub call_limit : ℕ
call_limit = 10000

pub record Liveness : Type 0 where
  pub last_ms : ℕ
  pub busy : Bool
  pub call_until_ms : ℕ

unfoldable pub new_liveness : Liveness
new_liveness = record { last_ms = 1; busy = true; call_until_ms = 0 }

unfoldable pub progress : Liveness → ℕ → Liveness
progress l now = record l { last_ms = now + 1 }

unfoldable pub set_busy : Liveness → Bool → ℕ → Liveness
unfolding progress
set_busy l true now = record (progress l now) { busy = true }
set_busy l false now = record l { busy = false }

unfoldable pub call_started : Liveness → ℕ → Liveness
call_started l now = record l { call_until_ms = now + call_limit + 1 }

unfoldable pub call_done : Liveness → ℕ → Liveness
unfolding progress
call_done l now = progress (record l { call_until_ms = 0 }) now

unfoldable pub age_ms : Liveness → ℕ → ℕ
age_ms l now = if not l.busy then 0 else now + 1 - l.last_ms

unfoldable pub stalled : Liveness → ℕ → ℕ → Bool
unfolding age_ms
stalled l now limit =
    ltb limit (age_ms l now) && not (not (l.call_until_ms == 0) && ltb (now + 1) l.call_until_ms)

pub data Beat : Type 0 where
  progressed started done : ℕ → Beat
  busied : Bool → ℕ → Beat

abbrev pub beat : Liveness → Beat → Liveness
beat l (progressed at) = progress l at
beat l (started at) = call_started l at
beat l (done at) = call_done l at
beat l (busied b at) = set_busy l b at

-- A call counts as alive for its ten seconds, progress for the limit, and idling for ever.
abbrev pub IsAlive : Beat → ℕ → ℕ → Type 0
IsAlive (progressed at) now limit = now < at + limit
IsAlive (started at) now limit = now < at + call_limit
IsAlive (done at) now limit = now < at + limit
IsAlive (busied true at) now limit = now < at + limit
IsAlive (busied false at) now limit = Unit {0}

-- Whatever happened before, the executor does not count as stuck for ten seconds after a call has
-- begun, for the limit after a call has ended, after progress and after work was taken up, and while
-- it idles.
pub not_stalled :
    (l : Liveness) (b : Beat) (now limit : ℕ)
    → IsAlive b now limit
    → stalled (beat l b) now limit ≡ false
unfolding stalled progress set_busy call_started call_done age_ms
not_stalled l (progressed at) now limit h = ground arith
not_stalled l (started at) now limit h = ground arith
not_stalled l (done at) now limit h = ground arith
not_stalled l (busied true at) now limit h = ground arith
not_stalled l (busied false at) now limit h = ground arith

-- An executor that is at work counts as stuck as soon as more than the limit has passed since its
-- last progress and no call is within its ten seconds, and it counts so until something happens.
pub stalls :
    (l : Liveness) (now later limit : ℕ)
    → l.busy ≡ true
    → l.last_ms + limit ≤ now
    → l.call_until_ms ≤ now + 1
    → now ≤ later
    → stalled l later limit ≡ true
unfolding stalled age_ms
stalls l now later limit b h c g = ground arith
