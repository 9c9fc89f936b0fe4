-- ===== src/Server/Shutdown/Ordered.antt =====
-- What holds while the server ends.
use mathlib.Core.Path.{subst}
use atproto_push_gateway.Base.{
  ℕ, suc, ◌+◌, ◌≡◌, refl, sym, Text, Bytes, true, false, Option, ◌⊎◌, inl, inr, arith,
}
use atproto_push_gateway.Jetstream.Stream.{JetstreamEvent}
use atproto_push_gateway.Jetstream.System
use atproto_push_gateway.Jetstream.System.{System}
use atproto_push_gateway.Jetstream.System.Refinement.{view, Steps-view}
use atproto_push_gateway.Jetstream.Lifecycle.Stopping.{Steps-stopping}
use atproto_push_gateway.Server.Shutdown.{
  Stage, serving, shutting_down, closing, ended, Running, listen, Step, signal, close_listeners,
  drained, times_out, close_store, accept, answer, consume, Steps, none_yet, one_more,
}

-- No listener is open, and the requests are answered unless the time ran out.
abbrev pub IsQuiet : Running → Type 0
IsQuiet r = (r.listening ≡ false) × ((r.active ≡ 0) ⊎ (r.timed_out ≡ true))

abbrev pub IsInOrder : Stage → Running → Type 0
IsInOrder serving r = r.store_open ≡ true
IsInOrder shutting_down r = (r.store_open ≡ true) × (r.consumer.stopping ≡ true)
IsInOrder closing r = (r.store_open ≡ true) × (r.consumer.stopping ≡ true) × IsQuiet r
IsInOrder ended r = (r.store_open ≡ false) × (r.consumer.stopping ≡ true) × IsQuiet r

at_stage : (r : Running) (p : Stage) → r.stage ≡ p → IsInOrder r.stage r → IsInOrder p r
at_stage r p e h = subst (λ q. IsInOrder q r) e h

not_listening :
    (p : Stage) (r : Running)
    → IsInOrder p r
    → r.listening ≡ true
    → IsInOrder p (record r { active = r.active + 1 })
not_listening serving r h on = h
not_listening shutting_down r h on = h
not_listening closing r (_, _, (off, _)) on = absurd (ground (arith, on, off))
not_listening ended r (_, _, (off, _)) on = absurd (ground (arith, on, off))

fewer :
    (others : ℕ) (r : Running)
    → r.active ≡ suc others
    → (r.active ≡ 0) ⊎ (r.timed_out ≡ true)
    → (others ≡ 0) ⊎ (r.timed_out ≡ true)
fewer others r at (inl idle) = absurd (omega (arith, at, idle))
fewer others r at (inr late) = inr late

answered :
    (p : Stage) (r : Running) (others : ℕ)
    → r.active ≡ suc others
    → IsInOrder p r
    → IsInOrder p (record r { active = others })
answered serving r others at h = h
answered shutting_down r others at h = h
answered closing r others at (store_open, stopping, (off, idle)) =
    (store_open, stopping, (off, fewer others r at idle))
answered ended r others at (store_open, stopping, (off, idle)) =
    (store_open, stopping, (off, fewer others r at idle))

module _ (decode : Bytes → Option JetstreamEvent) (url : Text) where
  still_stopping :
      (s t : System) → System.Step decode url s t → s.stopping ≡ true → t.stopping ≡ true
  unfolding view
  still_stopping s t move h =
      let steps = Steps-view decode url s t (System.Steps.one_more System.Steps.none_yet move) in
      (Steps-stopping url (view s) (view t) steps h).0

  consumed :
      (p : Stage) (r : Running) (t : System)
      → System.Step decode url r.consumer t
      → IsInOrder p r
      → IsInOrder p (record r { consumer = t })
  consumed serving r t move h = h
  consumed shutting_down r t move (store_open, stopping) =
      (store_open, still_stopping r.consumer t move stopping)
  consumed closing r t move (store_open, stopping, quiet) =
      (store_open, still_stopping r.consumer t move stopping, quiet)
  consumed ended r t move (shut, stopping, quiet) =
      (shut, still_stopping r.consumer t move stopping, quiet)

  step-IsInOrder : (r t : Running) → Step decode url r t → IsInOrder r.stage r → IsInOrder t.stage t
  step-IsInOrder r t (signal at) h = (at_stage r serving at h, refl)
  step-IsInOrder r t (close_listeners at) h =
      subst (λ p. IsInOrder p (record r { listening = false })) (sym at)
        (at_stage r shutting_down at h)
  step-IsInOrder r t (drained at closed idle) h =
      let (store_open, stopping) = at_stage r shutting_down at h in
      (store_open, stopping, (closed, inl idle))
  step-IsInOrder r t (times_out at closed) h =
      let (store_open, stopping) = at_stage r shutting_down at h in
      (store_open, stopping, (closed, inr refl))
  step-IsInOrder r t (close_store at) h =
      let (_, stopping, (off, idle)) = at_stage r closing at h in (refl, stopping, (off, idle))
  step-IsInOrder r t (accept on) h = not_listening r.stage r h on
  step-IsInOrder r t (answer others at) h = answered r.stage r others at h
  step-IsInOrder r t (consume u move) h = consumed r.stage r u move h

  Steps-IsInOrder :
      (r t : Running) → Steps decode url r t → IsInOrder r.stage r → IsInOrder t.stage t
  Steps-IsInOrder r _ none_yet h = h
  Steps-IsInOrder r t (one_more {s = v} before last) h =
      step-IsInOrder v t last (Steps-IsInOrder r v before h)

  -- From where the server listens, in every state that it reaches, with requests and the consumer's
  -- goroutines going on beside main: before the signal the store is open; from the signal on the
  -- consumer has been told to stop; and main goes on to close the store, and has closed it at the
  -- end, only with no listener open and no request active, or after the ten seconds ran out.
  pub listen-reaches :
      (consumer : System) (t : Running) → Steps decode url (listen consumer) t → IsInOrder t.stage t
  unfolding listen
  listen-reaches consumer t steps = Steps-IsInOrder (listen consumer) t steps refl

  -- Main waits for no worker: with no request active, it ends and closes the store at once after
  -- the signal, whatever items the workers are handling.
  ends_with_busy :
      (r : Running)
      → r.stage ≡ serving
      → r.active ≡ 0
      → (t : Running) × Steps decode url r t
        × (t.stage ≡ ended)
        × (t.store_open ≡ false)
        × (t.consumer.busy ≡ r.consumer.busy)
  ends_with_busy r at idle = (
    _,
    one_more
        (one_more (one_more (one_more none_yet (signal at)) (close_listeners refl))
          (drained refl refl idle))
        (close_store refl),
    refl,
    refl,
    refl,
  )
