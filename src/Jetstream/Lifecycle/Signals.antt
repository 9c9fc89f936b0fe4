-- ===== src/Jetstream/Lifecycle/Signals.antt =====
-- NotifyTokenRegistered, called one after another and at once.
use atproto_push_gateway.Base.{
  ℕ, zero, suc, ◌+◌, ◌≡◌, refl, ap, ◌∙◌, Bool, true, false, ltb, arith, if◌then◌else◌,
}
use atproto_push_gateway.Jetstream.Lifecycle.{Signal, look, close, notify_token_registered}

unfoldable pub times : ℕ → (Signal → Signal) → Signal → Signal
times zero f s = s
times (suc n) f s = times n f (f s)

abbrev pub fresh : (closed : Bool) → Signal
fresh closed = record { closed = closed; panicked = false; closers = 0 }

-- Calls one after another close the channel once, and never panic.
notify_token_registered_serial :
    (n : ℕ) (closed : Bool)
    → times n notify_token_registered (fresh closed) ≡ fresh (if ltb 0 n then true else closed)
unfolding times notify_token_registered look close
notify_token_registered_serial zero closed = refl
notify_token_registered_serial (suc zero) true = refl
notify_token_registered_serial (suc zero) false = refl
notify_token_registered_serial (suc (suc n)) true =
    notify_token_registered_serial (suc n) true ∙ ground arith
notify_token_registered_serial (suc (suc n)) false =
    notify_token_registered_serial (suc n) true ∙ ground arith

looks :
    (n k : ℕ)
    → times n look (record { closed = false; panicked = false; closers = k })
      ≡ record { closed = false; panicked = false; closers = n + k }
unfolding times look
looks zero k = ap (λ m. record { closed = false; panicked = false; closers = m }) (omega arith)
looks (suc n) k =
    looks n (k + 1)
    ∙ ap (λ m. record { closed = false; panicked = false; closers = m }) (omega arith)

late_closes :
    (n : ℕ) (p : Bool)
    → (times n close (record { closed = true; panicked = p; closers = n })).panicked
      ≡ (if ltb 0 n then true else p)
unfolding times close
late_closes zero p = refl
late_closes (suc zero) p = refl
late_closes (suc (suc n)) p = late_closes (suc n) true ∙ ground arith

closes :
    (n : ℕ)
    → (times n close (record { closed = false; panicked = false; closers = n })).panicked ≡ ltb 1 n
unfolding times close
closes zero = refl
closes (suc n) = late_closes n false ∙ ground arith

-- Calls that all look at the open channel before one of them closes it panic exactly if there are
-- two or more of them.
pub notify_token_registered_at_once :
    (n : ℕ) → (times n close (times n look (fresh false))).panicked ≡ ltb 1 n
notify_token_registered_at_once n =
    ap (λ s. (times n close s).panicked)
      (looks n 0 ∙ ap (λ m. record { closed = false; panicked = false; closers = m }) (omega arith))
    ∙ closes n
