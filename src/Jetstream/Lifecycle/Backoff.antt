-- ===== src/Jetstream/Lifecycle/Backoff.antt =====
-- The pauses of Run, connection by connection.
use atproto_push_gateway.Base.{
  ℕ, zero, suc, ◌-◌, ◌*◌, ◌^◌, ◌≡◌, ◌≤◌, ◌<◌, refl, ap, sym, ◌∙◌, Text, Bool, true, false, length,
  arith, ◌⊎◌, inl, inr,
}
use mathlib.Core.Path.{subst}
use atproto_push_gateway.Jetstream.Stream.{second, max_backoff}
use atproto_push_gateway.Jetstream.Lifecycle.{
  Phase, waiting, stopped, looping, dialling, connected, pausing, Runner, doubled, after_dial, Step,
  token_registered, stop, start, give_up, quit, go_on, dial, progress, fail, finish, wake, leave,
  Steps, none_yet, one_more, new_runner,
}

-- The pause after a number of others, doubled each time up to the cap.
unfoldable grown : ℕ → ℕ
grown zero = second
grown (suc n) = doubled (grown n)

-- The backoff has been doubled once for each connection that ended.
abbrev IsGrown : Phase → ℕ → Type 0
IsGrown waiting dials = dials ≡ 0
IsGrown stopped dials = Unit
IsGrown (looping backoff) dials = backoff ≡ grown dials
IsGrown (dialling backoff) dials = backoff ≡ grown dials
IsGrown (connected backoff) dials = (n : ℕ) × (dials ≡ suc n) × (backoff ≡ grown n)
IsGrown (pausing backoff) dials = (n : ℕ) × (dials ≡ suc n) × (backoff ≡ grown n)

abbrev Grown : Runner → Type 0
Grown r = (r.stopping ≡ true) ⊎ IsGrown r.phase (length r.dialled)

grown_cap : (n : ℕ) → 6 ≤ n → grown n ≡ max_backoff
unfolding grown
grown_cap n enough =
    ap grown {x = n} {y = suc (suc (suc (suc (suc (suc (n - 6))))))} (omega arith) ∙ cap (n - 6)
  where
    cap : (k : ℕ) → grown (suc (suc (suc (suc (suc (suc k)))))) ≡ max_backoff
    cap zero = refl
    cap (suc k) = ap doubled (cap k)

-- The sixth doubling passes the minute, and the cap cuts it off there.
grown-powers : (n : ℕ) → ((n < 6) × (grown n ≡ 2 ^ n * 1000)) ⊎ ((6 ≤ n) × (grown n ≡ 60000))
unfolding grown
grown-powers zero = inl (omega arith, refl)
grown-powers (suc zero) = inl (omega arith, refl)
grown-powers (suc (suc zero)) = inl (omega arith, refl)
grown-powers (suc (suc (suc zero))) = inl (omega arith, refl)
grown-powers (suc (suc (suc (suc zero)))) = inl (omega arith, refl)
grown-powers (suc (suc (suc (suc (suc zero))))) = inl (omega arith, refl)
grown-powers (suc (suc (suc (suc (suc (suc n)))))) =
    inr (omega arith, grown_cap (suc (suc (suc (suc (suc (suc n)))))) (omega arith))

module _ (url : Text) where
  at_phase :
      (r : Runner) (phase : Phase)
      → r.phase ≡ phase
      → IsGrown r.phase (length r.dialled)
      → IsGrown phase (length r.dialled)
  at_phase r phase e h = subst (λ q. IsGrown q (length r.dialled)) e h

  step-Grown : (r t : Runner) → Step url r t → Grown r → Grown t
  unfolding after_dial grown
  step-Grown r _ token_registered h = h
  step-Grown r _ stop h = inl refl
  step-Grown r _ (give_up here stopping) h = inl stopping
  step-Grown r _ (quit b here stopping) h = inl stopping
  step-Grown r _ (finish b here stopping) h = inl stopping
  step-Grown r _ (leave b here stopping) h = inl stopping
  step-Grown r _ (start here on) (inl h) = inl h
  step-Grown r _ (go_on b here open_yet) (inl h) = inl h
  step-Grown r _ (dial b here) (inl h) = inl h
  step-Grown r _ (progress b cursor here) (inl h) = inl h
  step-Grown r _ (fail b here) (inl h) = inl h
  step-Grown r _ (wake b here) (inl h) = inl h
  step-Grown r _ (start here on) (inr h) = inr (ap grown (sym (at_phase r waiting here h)))
  step-Grown r _ (go_on b here open_yet) (inr h) = inr (at_phase r (looping b) here h)
  step-Grown r _ (dial b here) (inr h) =
      inr (length r.dialled, refl, at_phase r (dialling b) here h)
  step-Grown r _ (progress b cursor here) (inr h) = inr h
  step-Grown r _ (fail b here) (inr h) = inr (at_phase r (connected b) here h)
  step-Grown r _ (wake b here) (inr h) =
      let (n, dials, backoff) = at_phase r (pausing b) here h in
      inr (ap doubled backoff ∙ ap grown (sym dials))

  Steps-Grown : (r t : Runner) → Steps url r t → Grown r → Grown t
  Steps-Grown r _ none_yet h = h
  Steps-Grown r t (one_more {s = s} before last) h = step-Grown s t last (Steps-Grown r s before h)

  new_runner-Grown : (started : Bool) (r : Runner) → Steps url (new_runner started) r → Grown r
  new_runner-Grown started r steps = Steps-Grown (new_runner started) r steps (inr refl)

  -- While Stop has not been called, the pause after a connection before which there were n others
  -- is 2 ^ n seconds if n is less than 6, and a minute from the seventh connection on, whatever the
  -- connections brought. The times are in milliseconds.
  pub pausing_grows :
      (started : Bool) (r : Runner) (backoff : ℕ)
      → Steps url (new_runner started) r
      → r.stopping ≡ false
      → r.phase ≡ pausing backoff
      → (n : ℕ) × (length r.dialled ≡ suc n)
        × (((n < 6) × (backoff ≡ 2 ^ n * 1000)) ⊎ ((6 ≤ n) × (backoff ≡ 60000)))
  pausing_grows started r backoff steps running here = elim (new_runner-Grown started r steps) [
    | inl stopping ↦ absurd (ground (arith, stopping, running))
    | inr h ↦
        let (n, dials, e) = at_phase r (pausing backoff) here h in
        (
          n,
          dials,
          elim (grown-powers n) [
            | inl (few, powers) ↦ inl (few, e ∙ powers)
            | inr (enough, cap) ↦ inr (enough, e ∙ cap)
          ],
        )
  ]
