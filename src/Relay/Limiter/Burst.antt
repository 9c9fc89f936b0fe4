-- ===== src/Relay/Limiter/Burst.antt =====
-- How many requests the limiter lets through in a window.
use atproto_push_gateway.Base.{
  ℕ, ◌+◌, ◌*◌, ◌-◌, ◌≤◌, ◌<◌, ◌⊎◌, ◌≡◌, ◌≢◌, ◌==◌, eq_iff, eq_refl, Text, true, false, not, Map,
  none, some, List, [], ◌∷◌, All, keep, leb, if◌then◌else◌, lookup, insert, lookup-insert, arith,
  Option-cases, Bool-cases, inl, inr,
}
use atproto_push_gateway.Relay.{Window}
use atproto_push_gateway.Relay.Limiter.{
  rate_window, rate_limit, is_expired, sweep, start_window, allow,
}

-- Of a sequence of calls, each with its time and key, how many for the key `k` are let through.
unfoldable pub accepted : Text → List (ℕ × Text) → Map Window → ℕ
accepted k [] windows = 0
accepted k ((now, key) ∷ calls) windows =
    let (windows', allowed) = allow now key windows in
    let rest = accepted k calls windows' in
    if key == k then (if allowed then rest + 1 else rest) else rest

lookup-keep_live :
    (now : ℕ) (k : Text) (windows : Map Window) (w : Window)
    → lookup k windows ≡ some w
    → is_expired now w ≡ false
    → lookup k (keep (λ e. not (is_expired now e.1)) windows) ≡ some w
unfolding lookup
lookup-keep_live now k [] w found live = found
lookup-keep_live now k ((j, v) ∷ windows) w found live =
    ground (arith, lookup-keep_live now k windows w, eq_iff j k)

lookup-sweep :
    (now : ℕ) (k : Text) (windows : Map Window) (w : Window)
    → lookup k windows ≡ some w
    → is_expired now w ≡ false
    → lookup k (sweep now windows) ≡ some w
unfolding sweep
lookup-sweep now k windows w found live = ground (arith, lookup-keep_live now k windows w)

-- A call for another key leaves a window that has not expired.
lookup-allow_other :
    (now : ℕ) (key k : Text) (windows : Map Window) (w : Window)
    → key ≢ k
    → lookup k windows ≡ some w
    → is_expired now w ≡ false
    → lookup k (allow now key windows).0 ≡ some w
unfolding allow
lookup-allow_other now key k windows w other found live = elim (Option-cases (lookup key windows)) [
  | inl missing ↦ ground (
    arith,
    missing,
    eq_iff key k,
    lookup-sweep now k windows w,
    lookup-insert key k (record { count = 1; start = now }) (sweep now windows),
  )
  | inr (v, there) ↦ ground (
    arith,
    there,
    eq_iff key k,
    lookup-sweep now k windows w,
    lookup-insert key k (record { count = 1; start = now }) (sweep now windows),
    lookup-insert key k (record v { count = v.count + 1 }) windows,
  )
]

-- A call for the key of a window that has not expired counts against it.
allow_live :
    (now : ℕ) (k : Text) (windows : Map Window) (w : Window)
    → lookup k windows ≡ some w
    → is_expired now w ≡ false
    → allow now k windows ≡ (
        if leb rate_limit w.count
        then (windows, false)
        else (insert k (record w { count = w.count + 1 }) windows, true))
unfolding allow
allow_live now k windows w found live = ground (arith, found)

-- A call without a window that still runs starts one.
allow_opens :
    (now : ℕ) (k : Text) (windows : Map Window)
    → (lookup k windows ≡ none)
      ⊎ ((w : Window) × (lookup k windows ≡ some w) × (rate_window < now - w.start))
    → allow now k windows ≡ (insert k (record { count = 1; start = now }) (sweep now windows), true)
unfolding allow start_window
allow_opens now k windows (inl new) = ground (arith, new)
allow_opens now k windows (inr (w, found, old)) = ground (arith, found, old)

-- Within a window that holds `w.count` requests of a key, at most the rest of the limit is let
-- through for it, whatever calls for other keys come between.
accepted_within :
    (k : Text) (calls : List (ℕ × Text)) (windows : Map Window) (w : Window)
    → lookup k windows ≡ some w
    → w.count ≤ rate_limit
    → All (λ c. c.0 - w.start ≤ rate_window) calls
    → accepted k calls windows + w.count ≤ rate_limit
unfolding accepted
accepted_within k [] windows w found room within = omega arith
accepted_within k ((now, key) ∷ calls) windows w found room (here, within) =
    elim (Bool-cases (key == k)) [
      | inl same ↦
          (let w' : Window = record w { count = w.count + 1 } in
            let e = (eq_iff key k).0 same in
            ground (
              arith,
              same,
              e,
              allow_live now k windows w,
              eq_refl k,
              lookup-insert k k w' windows,
              accepted_within k calls windows w,
              accepted_within k calls (insert k w' windows) w',
            ))
      | inr other ↦ ground (
        arith,
        other,
        eq_iff key k,
        accepted_within k calls (allow now key windows).0 w,
        lookup-allow_other now key k windows w,
      )
    ]

-- A call at which the key has no window, or one that began more than a minute ago, opens a new
-- window: from that call until a minute later the key is let through at most 60 times, that call
-- included, whatever calls for other keys come between.
pub accepted_in_minute :
    (k : Text) (now : ℕ) (calls : List (ℕ × Text)) (windows : Map Window)
    → (lookup k windows ≡ none)
      ⊎ ((w : Window) × (lookup k windows ≡ some w) × (60 * 1_000_000_000 < now - w.start))
    → All (λ c. c.0 - now ≤ 60 * 1_000_000_000) calls
    → accepted k ((now, k) ∷ calls) windows ≤ 60
unfolding accepted
accepted_in_minute k now calls windows new within =
    let w : Window = record { count = 1; start = now } in
    ground (
      arith,
      allow_opens now k windows new,
      eq_refl k,
      lookup-insert k k w (sweep now windows),
      accepted_within k calls (insert k w (sweep now windows)) w,
    )
