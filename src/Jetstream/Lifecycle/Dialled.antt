-- ===== src/Jetstream/Lifecycle/Dialled.antt =====
-- What Run can have done: invariants of every state that it reaches.
use atproto_push_gateway.Base.{
  ◌≡◌, ◌≤◌, refl, Text, Bool, true, false, List, [], arith, ◌⊎◌, inl, inr, Bool-cases,
}
use mathlib.Core.Path.{subst}
use atproto_push_gateway.Jetstream.Stream.{second, max_backoff}
use atproto_push_gateway.Jetstream.Lifecycle.{
  Phase, waiting, stopped, looping, dialling, connected, pausing, Runner, after_dial, Step,
  token_registered, stop, start, give_up, quit, go_on, dial, progress, fail, finish, wake, leave,
  Steps, none_yet, one_more, new_runner,
}

-- A pause is between a second and the cap, and Run loops only once a token is registered and has
-- dialled only then.
abbrev pub IsPhase : Phase → (started : Bool) → (dialled : List Text) → Type 0
IsPhase waiting started dialled = dialled ≡ []
IsPhase stopped started dialled = started ≡ false → dialled ≡ []
IsPhase (looping backoff) started dialled =
    (started ≡ true) × (second ≤ backoff) × (backoff ≤ max_backoff)
IsPhase (dialling backoff) started dialled =
    (started ≡ true) × (second ≤ backoff) × (backoff ≤ max_backoff)
IsPhase (connected backoff) started dialled =
    (started ≡ true) × (second ≤ backoff) × (backoff ≤ max_backoff)
IsPhase (pausing backoff) started dialled =
    (started ≡ true) × (second ≤ backoff) × (backoff ≤ max_backoff)

abbrev pub IsRunner : Runner → Type 0
IsRunner r = IsPhase r.phase r.started r.dialled

-- What the phase says of the pause before the next connection.
abbrev pub IsPaced : Phase → Type 0
IsPaced waiting = Unit
IsPaced stopped = Unit
IsPaced (looping backoff) = (second ≤ backoff) × (backoff ≤ max_backoff)
IsPaced (dialling backoff) = (second ≤ backoff) × (backoff ≤ max_backoff)
IsPaced (connected backoff) = (second ≤ backoff) × (backoff ≤ max_backoff)
IsPaced (pausing backoff) = (second ≤ backoff) × (backoff ≤ max_backoff)

module _ (url : Text) where
  at_phase :
      (r : Runner) (phase : Phase)
      → r.phase ≡ phase
      → IsRunner r
      → IsPhase phase r.started r.dialled
  at_phase r phase e h = subst (λ q. IsPhase q r.started r.dialled) e h

  started_later :
      (phase : Phase) (started : Bool) (dialled : List Text)
      → IsPhase phase started dialled
      → IsPhase phase true dialled
  started_later waiting started dialled h = h
  started_later stopped started dialled h = λ e. absurd (ground (arith, e))
  started_later (looping b) started dialled (_, low, high) = (refl, low, high)
  started_later (dialling b) started dialled (_, low, high) = (refl, low, high)
  started_later (connected b) started dialled (_, low, high) = (refl, low, high)
  started_later (pausing b) started dialled (_, low, high) = (refl, low, high)

  step-IsRunner : (r t : Runner) → Step url r t → IsRunner r → IsRunner t
  unfolding after_dial
  step-IsRunner r _ token_registered h = started_later r.phase r.started r.dialled h
  step-IsRunner r _ stop h = h
  step-IsRunner r _ (start here on) h = (on, omega arith, omega arith)
  step-IsRunner r _ (give_up here stopping) h = λ _. at_phase r waiting here h
  step-IsRunner r _ (quit b here stopping) h =
      λ off. absurd (ground (arith, off, at_phase r (looping b) here h))
  step-IsRunner r _ (go_on b here open_yet) h = at_phase r (looping b) here h
  step-IsRunner r _ (dial b here) h = at_phase r (dialling b) here h
  step-IsRunner r _ (progress b cursor here) h = h
  step-IsRunner r _ (fail b here) h = at_phase r (connected b) here h
  step-IsRunner r _ (finish b here stopping) h =
      let (on, low, high) = at_phase r (connected b) here h in (on, omega arith, omega arith)
  step-IsRunner r _ (wake b here) h =
      let (on, low, high) = at_phase r (pausing b) here h in (on, ground arith, ground arith)
  step-IsRunner r _ (leave b here stopping) h =
      λ off. absurd (ground (arith, off, at_phase r (pausing b) here h))

  Steps-IsRunner : (r t : Runner) → Steps url r t → IsRunner r → IsRunner t
  Steps-IsRunner r _ none_yet h = h
  Steps-IsRunner r t (one_more {s = s} before last) h =
      step-IsRunner s t last (Steps-IsRunner r s before h)

  undialled :
      (phase : Phase) (started : Bool) (dialled : List Text)
      → IsPhase phase started dialled
      → started ≡ false
      → dialled ≡ []
  undialled waiting started dialled h off = h
  undialled stopped started dialled h off = h off
  undialled (looping b) started dialled (on, _, _) off = absurd (ground (arith, on, off))
  undialled (dialling b) started dialled (on, _, _) off = absurd (ground (arith, on, off))
  undialled (connected b) started dialled (on, _, _) off = absurd (ground (arith, on, off))
  undialled (pausing b) started dialled (on, _, _) off = absurd (ground (arith, on, off))

  paced :
      (phase : Phase) (started : Bool) (dialled : List Text)
      → IsPhase phase started dialled
      → IsPaced phase
  paced waiting started dialled h = tt
  paced stopped started dialled h = tt
  paced (looping b) started dialled (_, low, high) = (low, high)
  paced (dialling b) started dialled (_, low, high) = (low, high)
  paced (connected b) started dialled (_, low, high) = (low, high)
  paced (pausing b) started dialled (_, low, high) = (low, high)

  -- In every state that a consumer reaches, a token has been registered or it has dialled nothing,
  -- and its backoff is at least a second and at most the cap.
  new_runner-reaches :
      (started : Bool) (r : Runner)
      → Steps url (new_runner started) r
      → ((r.started ≡ true) ⊎ (r.dialled ≡ [])) × IsPaced r.phase
  new_runner-reaches started r steps =
      let h = Steps-IsRunner (new_runner started) r steps refl in
      (
        elim (Bool-cases r.started) [
          | inl on ↦ inl on
          | inr off ↦ inr (undialled r.phase r.started r.dialled h off)
        ],
        paced r.phase r.started r.dialled h,
      )
