-- ===== src/Store/Tokens/Interleaved.antt =====
-- RegisterToken and UnregisterToken called at once: a statement of the database, or the transaction
-- of RegisterToken, is one step, and so is each use of the map under its lock. What a call still
-- has to do is a task; a schedule says which call or task goes next.
pub mod Consistent
pub mod Race
use atproto_push_gateway.Base.{
  ℕ, zero, suc, Text, Bool, true, false, not, List, [], ◌∷◌, ◌++◌, Option, none, some, nat_eq,
  insert, delete, if◌then◌else◌, ok, err,
}
use atproto_push_gateway.Store.{Store, Db, delete_token}
use atproto_push_gateway.Store.Tokens.{register_token, without_token, count_after}

-- RegisterToken has committed and will write the map; UnregisterToken has deleted the row and will
-- count the rest; it has found none and will write the map.
pub data Task : Type 0 where
  marking : (did : Text) → Task
  counting : (did : Text) → Task
  unmarking : (did : Text) → Task

pub record System : Type 0 where
  pub store : Store
  pub tasks : List Task

pub data Event : Type 0 where
  register : Db → (did platform token app : Text) → Event
  unregister : Db → (did platform token app : Text) → Event
  resume : Db → (task : ℕ) → Event

-- The task at a place, and the others.
unfoldable pub take_task : ℕ → List Task → Option (Task × List Task)
take_task i [] = none
take_task zero (t ∷ ts) = some (t, ts)
take_task (suc i) (t ∷ ts) = elim (take_task i ts) [
  | none ↦ none
  | some (u, others) ↦ some (u, t ∷ others)
]

-- The transaction of RegisterToken, up to its commit.
unfoldable pub begin_register : Db → (did platform token app : Text) → System → System
begin_register db did platform token app s =
    let (t, registered) = register_token db did platform token app s.store in
    elim registered [
      | err _ ↦ s
      | ok _ ↦ record {
        store = record s.store { push_tokens = t.push_tokens };
        tasks = s.tasks ++ marking did ∷ [];
      }
    ]

-- The DELETE of UnregisterToken.
unfoldable pub begin_unregister : Db → (did platform token app : Text) → System → System
begin_unregister db did platform token app s = if not (db delete_token) then s else record {
  store = record s.store { push_tokens = without_token did platform token app s.store.push_tokens };
  tasks = s.tasks ++ counting did ∷ [];
}

unfoldable pub perform_task : Db → Task → Store → List Task → System
perform_task db (marking did) s others = record {
  store = record s { registered_dids = insert did true s.registered_dids };
  tasks = others;
}
perform_task db (counting did) s others =
    if nat_eq (count_after db did s.push_tokens) 0
    then record { store = s; tasks = unmarking did ∷ others }
    else record { store = s; tasks = others }
perform_task db (unmarking did) s others = record {
  store = record s { registered_dids = delete did s.registered_dids };
  tasks = others;
}

unfoldable pub step : Event → System → System
unfolding take_task begin_register begin_unregister perform_task
step (register db did platform token app) s = begin_register db did platform token app s
step (unregister db did platform token app) s = begin_unregister db did platform token app s
step (resume db i) s = elim (take_task i s.tasks) [
  | none ↦ s
  | some (t, others) ↦ perform_task db t s.store others
]

unfoldable pub run : List Event → System → System
unfolding step
run [] s = s
run (e ∷ es) s = run es (step e s)

-- No call is under way.
abbrev pub idle : Store → System
idle s = record { store = s; tasks = [] }
