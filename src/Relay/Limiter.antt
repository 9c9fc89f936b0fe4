-- ===== src/Relay/Limiter.antt =====
-- relay.go: rateLimiter. Times are in nanoseconds of a clock that does not go back.
pub mod Burst
use atproto_push_gateway.Base.{
  ℕ, ◌+◌, ◌-◌, ◌*◌, Text, Bool, true, false, not, Map, Option, none, some, length, keep, leb, ltb,
  if◌then◌else◌, lookup, insert,
}
use atproto_push_gateway.Relay.{Window}

abbrev pub rate_window : ℕ
rate_window = 60 * 1_000_000_000

abbrev pub rate_limit : ℕ
rate_limit = 60

abbrev pub sweep_above : ℕ
sweep_above = 10000

-- now.Sub(w.start) > rateWindow
abbrev pub is_expired : ℕ → Window → Bool
is_expired now w = ltb rate_window (now - w.start)

-- The windows that are left when the map is swept.
unfoldable pub sweep : ℕ → Map Window → Map Window
sweep now windows =
    if ltb sweep_above (length windows)
    then keep (λ e. not (is_expired now e.1)) windows
    else windows

unfoldable pub start_window : ℕ → Text → Map Window → Map Window × Bool
unfolding sweep
start_window now key windows =
    (insert key (record { count = 1; start = now }) (sweep now windows), true)

unfoldable pub allow : ℕ → Text → Map Window → Map Window × Bool
unfolding start_window
allow now key windows = elim (lookup key windows) [
  | none ↦ start_window now key windows
  | some w ↦
      if is_expired now w
      then start_window now key windows
      else if leb rate_limit w.count
      then (windows, false)
      else (insert key (record w { count = w.count + 1 }) windows, true)
]
