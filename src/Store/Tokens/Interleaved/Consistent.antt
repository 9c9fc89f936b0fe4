-- ===== src/Store/Tokens/Interleaved/Consistent.antt =====
-- The map of registered DIDs under any interleaving that keeps a registration away from an
-- unregistration of the same DID that has counted no tokens.
use mathlib.Core.Path.{subst, sym}
use atproto_push_gateway.Base.{
  ℕ, zero, suc, ◌≡◌, ap, ◌==◌, eq_iff, Text, Bool, true, false, not, ◌&&◌, ◌||◌, List, [], ◌∷◌,
  none, some, keep, some_of, some_of-append, some_of-keep, some_of-length-keep, lookup-insert,
  lookup-delete, arith, Option-cases, inl, inr,
}
use atproto_push_gateway.Store.{PushToken, Db, count_tokens}
use atproto_push_gateway.Store.Tokens.{
  is_of, has_key, is_row, replace_token, register_token, count_after, is_registered,
}
use atproto_push_gateway.Store.Tokens.Cap.{IsCapped, register_token-IsCapped, count_of-keep_le}
use atproto_push_gateway.Store.Tokens.Interleaved.{
  Task, marking, counting, unmarking, System, Event, register, unregister, resume, take_task,
  begin_register, begin_unregister, perform_task, step, run,
}

abbrev pub is_marking : Text → Task → Bool
is_marking d (marking did) = did == d
is_marking d (counting did) = false
is_marking d (unmarking did) = false

abbrev pub is_unmarking : Text → Task → Bool
is_unmarking d (marking did) = false
is_unmarking d (counting did) = false
is_unmarking d (unmarking did) = did == d

-- No registration begins while an unregistration of the DID has still to write the map, and no
-- count fails.
abbrev pub IsOrderly : Event → System → Type 0
IsOrderly (register db did platform token app) s = some_of (is_unmarking did) s.tasks ≡ false
IsOrderly (unregister db did platform token app) s = Unit
IsOrderly (resume db i) s = db count_tokens ≡ true

unfoldable pub AreOrderly : List Event → System → Type 0
AreOrderly [] s = Unit
AreOrderly (e ∷ es) s = IsOrderly e s × AreOrderly es (step e s)

-- A DID with a token is in the map or will be, and will not be taken out of it.
abbrev pub holds : Text → System → Bool
holds d s =
    not (some_of (is_of d) s.store.push_tokens)
    || ((is_registered s.store d || some_of (is_marking d) s.tasks)
        && not (some_of (is_unmarking d) s.tasks))

abbrev pub Holds : System → Type 0
Holds s = (d : Text) → holds d s ≡ true

take_task-some_of :
    (q : Task → Bool) (i : ℕ) (ts : List Task) (t : Task) (others : List Task)
    → take_task i ts ≡ some (t, others)
    → some_of q ts ≡ (q t || some_of q others)
unfolding take_task
take_task-some_of q i [] t others e = absurd (ground (arith, e))
take_task-some_of q zero (u ∷ ts) t others e = ground (arith, e)
take_task-some_of q (suc i) (u ∷ ts) t others e = elim (Option-cases (take_task i ts)) [
  | inl gone ↦ absurd (ground (arith, gone, e))
  | inr ((v, rest), there) ↦
      (let under = take_task-some_of q i ts v rest there in ground (arith, there, e, under))
]

begin_register-Holds :
    (db : Db) (did platform token app : Text) (s : System)
    → some_of (is_unmarking did) s.tasks ≡ false
    → Holds s
    → Holds (begin_register db did platform token app s)
unfolding begin_register register_token replace_token is_registered
begin_register-Holds db did platform token app s orderly holding d =
    let row : PushToken = record {
      actor_did = did;
      platform = platform;
      push_token = token;
      app_id = app;
    } in
    let others = keep (λ r. not (has_key did token r)) s.store.push_tokens in
    ground (
      arith,
      orderly,
      holding d,
      eq_iff did d,
      some_of-append (is_marking d) s.tasks (marking did ∷ []),
      some_of-append (is_unmarking d) s.tasks (marking did ∷ []),
      some_of-append (is_of d) others (row ∷ []),
      some_of-keep (is_of d) (λ r. not (has_key did token r)) s.store.push_tokens,
    )

begin_unregister-Holds :
    (db : Db) (did platform token app : Text) (s : System)
    → Holds s
    → Holds (begin_unregister db did platform token app s)
unfolding begin_unregister is_registered
begin_unregister-Holds db did platform token app s holding d = ground (
  arith,
  holding d,
  some_of-append (is_marking d) s.tasks (counting did ∷ []),
  some_of-append (is_unmarking d) s.tasks (counting did ∷ []),
  some_of-keep (is_of d) (λ r. not (is_row did platform token app r)) s.store.push_tokens,
)

perform_task-Holds :
    (db : Db) (i : ℕ) (t : Task) (s : System) (others : List Task)
    → db count_tokens ≡ true
    → take_task i s.tasks ≡ some (t, others)
    → Holds s
    → Holds (perform_task db t s.store others)
unfolding perform_task is_registered count_after
perform_task-Holds db i (marking did) s others counts there holding d = ground (
  arith,
  holding d,
  eq_iff did d,
  lookup-insert did d true s.store.registered_dids,
  take_task-some_of (is_marking d) i s.tasks (marking did) others there,
  take_task-some_of (is_unmarking d) i s.tasks (marking did) others there,
)
perform_task-Holds db i (counting did) s others counts there holding d = ground (
  arith,
  holding d,
  counts,
  eq_iff did d,
  some_of-length-keep (is_of did) s.store.push_tokens,
  take_task-some_of (is_marking d) i s.tasks (counting did) others there,
  take_task-some_of (is_unmarking d) i s.tasks (counting did) others there,
)
perform_task-Holds db i (unmarking did) s others counts there holding d = ground (
  arith,
  holding d,
  eq_iff did d,
  lookup-delete did d s.store.registered_dids,
  take_task-some_of (is_marking d) i s.tasks (unmarking did) others there,
  take_task-some_of (is_unmarking d) i s.tasks (unmarking did) others there,
)

resume_idle : (db : Db) (i : ℕ) (s : System) → take_task i s.tasks ≡ none → step (resume db i) s ≡ s
unfolding step
resume_idle db i s gone = ground (arith, gone)

resume_task :
    (db : Db) (i : ℕ) (t : Task) (s : System) (others : List Task)
    → take_task i s.tasks ≡ some (t, others)
    → step (resume db i) s ≡ perform_task db t s.store others
unfolding step
resume_task db i t s others there = ground (arith, there)

step-Holds : (e : Event) (s : System) → IsOrderly e s → Holds s → Holds (step e s)
unfolding step
step-Holds (register db did platform token app) s orderly holding =
    begin_register-Holds db did platform token app s orderly holding
step-Holds (unregister db did platform token app) s orderly holding =
    begin_unregister-Holds db did platform token app s holding
step-Holds (resume db i) s orderly holding = elim (Option-cases (take_task i s.tasks)) [
  | inl gone ↦ subst Holds (sym (resume_idle db i s gone)) holding
  | inr ((t, others), there) ↦
      subst Holds (sym (resume_task db i t s others there))
        (perform_task-Holds db i t s others orderly there holding)
]

run-Holds : (es : List Event) (s : System) → AreOrderly es s → Holds s → Holds (run es s)
unfolding run AreOrderly
run-Holds [] s orderly holding = holding
run-Holds (e ∷ es) s (first, rest) holding =
    run-Holds es (step e s) rest (step-Holds e s first holding)

-- After any schedule in which no registration begins while an unregistration of its DID has still
-- to write the map, and no count fails, once no call has anything left to do, every DID with a
-- token is registered, if that held of the calls under way at the start.
pub run_registered :
    (es : List Event) (s : System) (d : Text)
    → AreOrderly es s
    → Holds s
    → (run es s).tasks ≡ []
    → some_of (is_of d) (run es s).store.push_tokens ≡ true
    → is_registered (run es s).store d ≡ true
run_registered es s d orderly holding over has_token =
    let held = run-Holds es s orderly holding d in
    ground (arith, held, has_token, ap (some_of (is_marking d)) over)

step-IsCapped :
    (e : Event) (s : System) → IsCapped s.store.push_tokens → IsCapped (step e s).store.push_tokens
unfolding step begin_register begin_unregister
step-IsCapped (register db did platform token app) s capped =
    let whole = register_token-IsCapped db did platform token app s.store capped in
    λ d. ground (arith, capped d, whole d)
step-IsCapped (unregister db did platform token app) s capped = λ d. ground (
  arith,
  capped d,
  count_of-keep_le d (λ r. not (is_row did platform token app r)) s.store.push_tokens,
)
step-IsCapped (resume db i) s capped = elim (Option-cases (take_task i s.tasks)) [
  | inl gone ↦ λ d. ground (arith, gone, capped d)
  | inr ((t, others), there) ↦
      subst (λ u. IsCapped u.store.push_tokens) (sym (resume_task db i t s others there))
        (task_capped t others)
]
  where
    task_capped :
        (t : Task) (others : List Task)
        → IsCapped (perform_task db t s.store others).store.push_tokens
    task_capped (marking did) others = capped
    task_capped (counting did) others = λ d. ground (arith, capped d)
    task_capped (unmarking did) others = capped

-- No schedule takes a DID over the cap on its tokens, whatever the database fails.
run-IsCapped :
    (es : List Event) (s : System)
    → IsCapped s.store.push_tokens
    → IsCapped (run es s).store.push_tokens
unfolding run
run-IsCapped [] s capped = capped
run-IsCapped (e ∷ es) s capped = run-IsCapped es (step e s) (step-IsCapped e s capped)
