-- ===== src/Jetstream/System/Workers.antt =====
-- How many workers there are: none before Run starts them, and eight from then on until Stop.
use mathlib.Core.Path.{subst}
use atproto_push_gateway.Base.{
  ℕ, suc, ◌+◌, ◌≡◌, ◌≤◌, refl, ap, ◌⊎◌, inl, inr, Text, Bytes, Bool, true, ◌∷◌, [], Option, length,
  length-append, arith,
}
use atproto_push_gateway.Jetstream.Stream.{JetstreamEvent}
use atproto_push_gateway.Jetstream.System.{
  Place, waiting, returned, looping, dialling, polling, reading, pausing, System, num_workers, Step,
  Steps, none_yet, one_more, token_registered, stop, start, give_up, quit, go_on, dial_fails,
  dial_works, poll, finish, receive, read_fails, wake, leave, take, done, worker_quits, elsewhere,
}

abbrev pub IsFull : (stopping : Bool) → (workers : ℕ) → Type 0
IsFull stopping workers = (workers ≤ num_workers) × ((stopping ≡ true) ⊎ (workers ≡ num_workers))

-- The workers at a place of Run: those at their select and those that handle an item.
abbrev pub IsStaff : Place → (stopping : Bool) → (workers : ℕ) → Type 0
IsStaff waiting stopping workers = workers ≡ 0
IsStaff returned stopping workers = IsFull stopping workers
IsStaff (looping b) stopping workers = IsFull stopping workers
IsStaff (dialling b) stopping workers = IsFull stopping workers
IsStaff (polling b) stopping workers = IsFull stopping workers
IsStaff (reading b) stopping workers = IsFull stopping workers
IsStaff (pausing b) stopping workers = IsFull stopping workers

abbrev pub IsStaffed : System → Type 0
IsStaffed s = IsStaff s.place s.stopping (s.idle + length s.busy)

at_place :
    (s : System) (p : Place)
    → s.place ≡ p
    → IsStaffed s
    → IsStaff p s.stopping (s.idle + length s.busy)
at_place s p e h = subst (λ q. IsStaff q s.stopping (s.idle + length s.busy)) e h

stopped_too : (p : Place) (stopping : Bool) (n : ℕ) → IsStaff p stopping n → IsStaff p true n
stopped_too waiting stopping n h = h
stopped_too returned stopping n (most, _) = (most, inl refl)
stopped_too (looping b) stopping n (most, _) = (most, inl refl)
stopped_too (dialling b) stopping n (most, _) = (most, inl refl)
stopped_too (polling b) stopping n (most, _) = (most, inl refl)
stopped_too (reading b) stopping n (most, _) = (most, inl refl)
stopped_too (pausing b) stopping n (most, _) = (most, inl refl)

-- While Run stops, a worker returns.
one_less :
    (p : Place) (stopping : Bool) (n m : ℕ)
    → stopping ≡ true
    → n ≡ suc m
    → IsStaff p stopping n
    → IsStaff p stopping m
one_less waiting stopping n m on less h = absurd (omega (arith, less, h))
one_less returned stopping n m on less (most, _) = (omega (arith, most, less), inl on)
one_less (looping b) stopping n m on less (most, _) = (omega (arith, most, less), inl on)
one_less (dialling b) stopping n m on less (most, _) = (omega (arith, most, less), inl on)
one_less (polling b) stopping n m on less (most, _) = (omega (arith, most, less), inl on)
one_less (reading b) stopping n m on less (most, _) = (omega (arith, most, less), inl on)
one_less (pausing b) stopping n m on less (most, _) = (omega (arith, most, less), inl on)

pub most_of : (p : Place) (stopping : Bool) (n : ℕ) → IsStaff p stopping n → n ≤ num_workers
most_of waiting stopping n h = omega (arith, h)
most_of returned stopping n (most, _) = most
most_of (looping b) stopping n (most, _) = most
most_of (dialling b) stopping n (most, _) = most
most_of (polling b) stopping n (most, _) = most
most_of (reading b) stopping n (most, _) = most
most_of (pausing b) stopping n (most, _) = most

module _ (decode : Bytes → Option JetstreamEvent) (url : Text) where
  step-IsStaffed : (s t : System) → Step decode url s t → IsStaffed s → IsStaffed t
  step-IsStaffed s _ token_registered h = h
  step-IsStaffed s _ stop h = stopped_too s.place s.stopping (s.idle + length s.busy) h
  step-IsStaffed s _ (start at on) h =
      let none_there = at_place s waiting at h in
      (omega (arith, none_there), inr (omega (arith, none_there)))
  step-IsStaffed s _ (give_up at stopping) h =
      (omega (arith, at_place s waiting at h), inl stopping)
  step-IsStaffed s _ (quit b at stopping) h = at_place s (looping b) at h
  step-IsStaffed s _ (go_on b at running) h = at_place s (looping b) at h
  step-IsStaffed s _ (dial_fails b at) h = at_place s (dialling b) at h
  step-IsStaffed s _ (dial_works b at) h = at_place s (dialling b) at h
  step-IsStaffed s _ (poll b at running) h = at_place s (polling b) at h
  step-IsStaffed s _ (finish b at stopping) h = at_place s (polling b) at h
  step-IsStaffed s _ (receive b m at) h = at_place s (reading b) at h
  step-IsStaffed s _ (read_fails b at) h = at_place s (reading b) at h
  step-IsStaffed s _ (wake b at) h = at_place s (pausing b) at h
  step-IsStaffed s _ (leave b at stopping) h = at_place s (pausing b) at h
  step-IsStaffed s _ (take others item idle first) h =
      subst (λ n. IsStaff s.place s.stopping n)
        (omega (arith, idle, length-append s.busy (item ∷ []))) h
  step-IsStaffed s _ (done o before after item at) h =
      subst (λ n. IsStaff s.place s.stopping n)
        (omega
          (arith, ap length at, length-append before (item ∷ after), length-append before after))
        h
  step-IsStaffed s _ (worker_quits others idle stopping) h =
      one_less s.place s.stopping (s.idle + length s.busy) (others + length s.busy) stopping
        (omega (arith, idle)) h
  step-IsStaffed s _ (elsewhere store) h = h

  pub Steps-IsStaffed : (s t : System) → Steps decode url s t → IsStaffed s → IsStaffed t
  Steps-IsStaffed s _ none_yet h = h
  Steps-IsStaffed s t (one_more {t = v} before last) h =
      step-IsStaffed v t last (Steps-IsStaffed s v before h)
