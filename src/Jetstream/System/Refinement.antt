-- ===== src/Jetstream/System/Refinement.antt =====
-- The consumer's goroutines together run as Run does alone.
use mathlib.Core.Path.{subst}
use atproto_push_gateway.Base.{◌≡◌, refl, sym, ap, Text, Bytes, Option, arith}
use atproto_push_gateway.Jetstream.Stream.{JetstreamEvent, Reader, read_message, take_item}
use atproto_push_gateway.Jetstream.Lifecycle.{Phase, Runner, connect_url, new_runner}
use atproto_push_gateway.Jetstream.Lifecycle
use atproto_push_gateway.Jetstream.System.{
  Place, waiting, returned, looping, dialling, polling, reading, pausing, System, Step, Steps,
  none_yet, one_more, token_registered, stop, start, give_up, quit, go_on, dial_fails, dial_works,
  poll, finish, receive, read_fails, wake, leave, take, done, worker_quits, elsewhere,
}

-- The places inside connect are one phase.
unfoldable pub phase_of : Place → Phase
phase_of waiting = Phase.waiting
phase_of returned = Phase.stopped
phase_of (looping b) = Phase.looping b
phase_of (dialling b) = Phase.dialling b
phase_of (polling b) = Phase.connected b
phase_of (reading b) = Phase.connected b
phase_of (pausing b) = Phase.pausing b

unfoldable pub view : System → Runner
view s = record {
  phase = phase_of s.place;
  started = s.started;
  stopping = s.stopping;
  last_cursor = s.reader.last_cursor;
  dialled = s.dialled;
}

take_item_cursor : (r : Reader) → (take_item r).0.last_cursor ≡ r.last_cursor
unfolding take_item
take_item_cursor r = ground arith

module _ (decode : Bytes → Option JetstreamEvent) (url : Text) where
  here : (s : System) (p : Place) → s.place ≡ p → (view s).phase ≡ phase_of p
  unfolding view
  here s p e = ap phase_of e

  -- A runner at a phase that is the same by an equation.
  stay :
      (r : Runner) (phase : Phase)
      → r.phase ≡ phase
      → Lifecycle.Steps url r (record r { phase = phase })
  stay r phase e =
      subst (λ p. Lifecycle.Steps url r (record r { phase = p })) e Lifecycle.Steps.none_yet

  once : (r t : Runner) → Lifecycle.Step url r t → Lifecycle.Steps url r t
  once r t step = Lifecycle.Steps.one_more Lifecycle.Steps.none_yet step

  and_then :
      (r t u : Runner) → Lifecycle.Steps url r t → Lifecycle.Steps url t u → Lifecycle.Steps url r u
  and_then r t _ first Lifecycle.Steps.none_yet = first
  and_then r t u first (Lifecycle.Steps.one_more {s = s} more last) =
      Lifecycle.Steps.one_more (and_then r t s first more) last

  step-view : (s t : System) → Step decode url s t → Lifecycle.Steps url (view s) (view t)
  unfolding view phase_of Lifecycle.after_dial
  step-view s t token_registered = once (view s) (view t) Lifecycle.Step.token_registered
  step-view s t stop = once (view s) (view t) Lifecycle.Step.stop
  step-view s t (start at on) = once (view s) (view t) (Lifecycle.Step.start (here s waiting at) on)
  step-view s t (give_up at stopping) =
      once (view s) (view t) (Lifecycle.Step.give_up (here s waiting at) stopping)
  step-view s t (quit b at stopping) =
      once (view s) (view t) (Lifecycle.Step.quit b (here s (looping b) at) stopping)
  step-view s t (go_on b at running) =
      once (view s) (view t) (Lifecycle.Step.go_on b (here s (looping b) at) running)
  step-view s t (dial_fails b at) =
      Lifecycle.Steps.one_more
        (once (view s) (Lifecycle.after_dial url b (view s))
          (Lifecycle.Step.dial b (here s (dialling b) at)))
        (Lifecycle.Step.fail b refl)
  step-view s t (dial_works b at) =
      once (view s) (view t) (Lifecycle.Step.dial b (here s (dialling b) at))
  step-view s t (poll b at running) = stay (view s) (Phase.connected b) (here s (polling b) at)
  step-view s t (finish b at stopping) =
      once (view s) (view t) (Lifecycle.Step.finish b (here s (polling b) at) stopping)
  step-view s t (receive b m at) =
      let cursor = (read_message decode m s.reader).last_cursor in
      let there = here s (reading b) at in
      let r : Runner = record (view s) { last_cursor = cursor } in
      and_then (view s) r (view t) (once (view s) r (Lifecycle.Step.progress b cursor there))
        (stay r (Phase.connected b) there)
  step-view s t (read_fails b at) =
      once (view s) (view t) (Lifecycle.Step.fail b (here s (reading b) at))
  step-view s t (wake b at) = once (view s) (view t) (Lifecycle.Step.wake b (here s (pausing b) at))
  step-view s t (leave b at stopping) =
      once (view s) (view t) (Lifecycle.Step.leave b (here s (pausing b) at) stopping)
  step-view s t (take others item idle first) =
      subst (λ c. Lifecycle.Steps url (view s) (record (view s) { last_cursor = c }))
        (sym (take_item_cursor s.reader)) Lifecycle.Steps.none_yet
  step-view s t (done o before after item at) = Lifecycle.Steps.none_yet
  step-view s t (worker_quits others idle stopping) = Lifecycle.Steps.none_yet
  step-view s t (elsewhere store) = Lifecycle.Steps.none_yet

  -- Whatever the workers, the messages, the sends and the other parts of the server do in between,
  -- every sequence of steps of the whole consumer is, for Run, a sequence of steps of Run alone.
  pub Steps-view : (s t : System) → Steps decode url s t → Lifecycle.Steps url (view s) (view t)
  Steps-view s _ none_yet = Lifecycle.Steps.none_yet
  Steps-view s t (one_more {t = v} before last) =
      and_then (view s) (view v) (view t) (Steps-view s v before) (step-view v t last)
