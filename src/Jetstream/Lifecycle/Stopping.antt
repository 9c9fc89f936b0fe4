-- ===== src/Jetstream/Lifecycle/Stopping.antt =====
-- What Run does once Stop has been called.
use atproto_push_gateway.Base.{
  ℕ, ap, ◌<◌, ◌≡◌, ◌≤◌, refl, Text, true, ◌∷◌, ◌+◌, length, arith, ◌⊎◌, inl, inr,
}
use atproto_push_gateway.Jetstream.Stream.{second}
use atproto_push_gateway.Jetstream.Lifecycle.{
  Phase, waiting, stopped, looping, dialling, connected, pausing, Runner, connect_url, after_dial,
  Step, token_registered, stop, start, give_up, quit, go_on, dial, progress, fail, finish, wake,
  leave, Steps, none_yet, one_more,
}

-- How far a phase is from the return, where no connection is dialled any more.
abbrev pub rank : Phase → ℕ
rank stopped = 0
rank (looping backoff) = 1
rank waiting = 2
rank (pausing backoff) = 2
rank (connected backoff) = 3
rank (dialling backoff) = 4

-- How many connections a phase still dials before it looks whether to stop.
abbrev pub yet_to_dial : Phase → ℕ
yet_to_dial waiting = 0
yet_to_dial stopped = 0
yet_to_dial (looping backoff) = 0
yet_to_dial (dialling backoff) = 1
yet_to_dial (connected backoff) = 0
yet_to_dial (pausing backoff) = 0

module _ (url : Text) where
  -- The connections dialled, and the one that is about to be.
  unfoldable pub dials : Runner → ℕ
  dials r = length r.dialled + yet_to_dial r.phase

  step-stopping :
      (r t : Runner) → Step url r t → r.stopping ≡ true → (t.stopping ≡ true) × (dials t ≤ dials r)
  unfolding after_dial dials
  step-stopping r _ token_registered h = (h, omega arith)
  step-stopping r _ stop h = (refl, omega arith)
  step-stopping r _ (start here on) h = (h, omega arith)
  step-stopping r _ (give_up here stopping) h = (h, omega arith)
  step-stopping r _ (quit b here stopping) h = (h, omega arith)
  step-stopping r _ (go_on b here open_yet) h = absurd (ground (arith, h, open_yet))
  step-stopping r _ (dial b here) h = (h, omega (arith, ap yet_to_dial here))
  step-stopping r _ (progress b cursor here) h = (h, omega arith)
  step-stopping r _ (fail b here) h = (h, omega arith)
  step-stopping r _ (finish b here stopping) h = (h, omega arith)
  step-stopping r _ (wake b here) h = (h, omega arith)
  step-stopping r _ (leave b here stopping) h = (h, omega arith)

  pub Steps-stopping :
      (r t : Runner) → Steps url r t → r.stopping ≡ true → (t.stopping ≡ true) × (dials t ≤ dials r)
  Steps-stopping r _ none_yet h = (h, omega arith)
  Steps-stopping r t (one_more {s = s} before last) h =
      let (stopping, bound) = Steps-stopping r s before h in
      let (still, less) = step-stopping s t last stopping in (still, omega (arith, bound, less))

  -- Once Stop has been called, a consumer dials once more only if it was about to, and never
  -- otherwise, whatever happens.
  pub Steps-stopped :
      (r t : Runner)
      → r.stopping ≡ true
      → Steps url r t
      → length t.dialled ≤ length r.dialled + yet_to_dial r.phase
  unfolding dials
  Steps-stopped r t stopping steps = omega (arith, (Steps-stopping r t steps stopping).1)

  can_return : (r : Runner) → r.stopping ≡ true → (t : Runner) × Steps url r t × (t.phase ≡ stopped)
  unfolding after_dial
  can_return r stopping = by_phase r.phase refl
    where
      by_phase :
          (phase : Phase) → r.phase ≡ phase → (t : Runner) × Steps url r t × (t.phase ≡ stopped)
      by_phase waiting here =
          (record r { phase = stopped }, one_more none_yet (give_up here stopping), refl)
      by_phase stopped here = (r, none_yet, here)
      by_phase (looping b) here =
          (record r { phase = stopped }, one_more none_yet (quit b here stopping), refl)
      by_phase (dialling b) here = (
        record r { phase = stopped; dialled = connect_url url r.last_cursor ∷ r.dialled },
        one_more (one_more (one_more none_yet (dial b here)) (finish b refl stopping))
            (leave second refl stopping),
        refl,
      )
      by_phase (connected b) here = (
        record r { phase = stopped },
        one_more (one_more none_yet (finish b here stopping)) (leave second refl stopping),
        refl,
      )
      by_phase (pausing b) here =
          (record r { phase = stopped }, one_more none_yet (leave b here stopping), refl)

  to_rank : (r : Runner) (phase : Phase) → r.phase ≡ phase → rank r.phase ≡ rank phase
  to_rank r phase here = ap rank here

  -- While a consumer is stopping, every step leaves it at its phase or takes it to one that is
  -- nearer to the return, of which there are at most four on the way, and the return can be
  -- reached from there.
  pub stopping_returns :
      (r t : Runner)
      → r.stopping ≡ true
      → Step url r t
      → ((t.phase ≡ r.phase) ⊎ (rank t.phase < rank r.phase))
        × (rank r.phase ≤ 4)
        × ((u : Runner) × Steps url t u × (u.phase ≡ stopped))
  unfolding after_dial
  stopping_returns r t stopping step =
      (nearer t step, bounded r.phase, can_return t (step-stopping r t step stopping).0)
    where
      bounded : (phase : Phase) → rank phase ≤ 4
      bounded waiting = omega arith
      bounded stopped = omega arith
      bounded (looping b) = omega arith
      bounded (dialling b) = omega arith
      bounded (connected b) = omega arith
      bounded (pausing b) = omega arith

      nearer : (u : Runner) → Step url r u → (u.phase ≡ r.phase) ⊎ (rank u.phase < rank r.phase)
      nearer _ token_registered = inl refl
      nearer _ stop = inl refl
      nearer _ (start here on) = inr (omega (arith, to_rank r waiting here))
      nearer _ (give_up here stopping) = inr (omega (arith, to_rank r waiting here))
      nearer _ (quit b here stopping) = inr (omega (arith, to_rank r (looping b) here))
      nearer _ (go_on b here open_yet) = absurd (ground (arith, stopping, open_yet))
      nearer _ (dial b here) = inr (omega (arith, to_rank r (dialling b) here))
      nearer _ (progress b cursor here) = inl refl
      nearer _ (fail b here) = inr (omega (arith, to_rank r (connected b) here))
      nearer _ (finish b here stopping) = inr (omega (arith, to_rank r (connected b) here))
      nearer _ (wake b here) = inr (omega (arith, to_rank r (pausing b) here))
      nearer _ (leave b here stopping) = inr (omega (arith, to_rank r (pausing b) here))
