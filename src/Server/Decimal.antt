-- ===== src/Server/Decimal.antt =====
-- The integers of the environment, as they are written in decimal.
use atproto_push_gateway.Base.{
  ℕ, ◌+◌, ◌-◌, ◌≡◌, ◌<◌, refl, ap, sym, ◌∙◌, ◌==◌, Text, Bool, true, false, not, List, [], ◌∷◌,
  Option, none, some, map, All, some_of, if◌then◌else◌, horner, decimal, horner-digits_onto,
  digits_onto-head, arith, ok, err, Result, ltb,
}
use atproto_push_gateway.Server.{
  Platform, Fatal, bad_integer, max_int64, is_digit, digits_value, parse_positive, get_env_int64,
}

All-digits :
    (ds : List ℕ)
    → All (λ d. d < 10) ds
    → some_of (λ c. not (is_digit c)) (map (λ d. d + b'0') ds) ≡ false
unfolding is_digit
All-digits [] low = refl
All-digits (d ∷ ds) (low, lows) = ground (arith, All-digits ds lows)

digit_values : (ds : List ℕ) → map (λ c. c - b'0') (map (λ d. d + b'0') ds) ≡ ds
digit_values [] = refl
digit_values (d ∷ ds) =
    let back : d + b'0' - b'0' ≡ d = omega arith in rw (back, digit_values ds) refl

digits_value-digits :
    (d : ℕ) (ds : List ℕ)
    → All (λ e. e < 10) (d ∷ ds)
    → digits_value (map (λ e. e + b'0') (d ∷ ds)) ≡ some (horner 10 0 (d ∷ ds))
unfolding digits_value ◌==◌
digits_value-digits d ds low =
    rw (digits_value, All-digits (d ∷ ds) low, digit_values (d ∷ ds)) refl

parse_positive-digits :
    (d n : ℕ) (ds : List ℕ)
    → All (λ e. e < 10) (d ∷ ds)
    → horner 10 0 (d ∷ ds) ≡ n
    → 0 < n
    → parse_positive (map (λ e. e + b'0') (d ∷ ds)) ≡ (if ltb max_int64 n then none else some n)
unfolding parse_positive
parse_positive-digits d n ds low value pos = ground (arith, digits_value-digits d ds low, value)

horner-nil : (m : ℕ) → horner 10 m [] ≡ m
unfolding horner
horner-nil m = refl

module _ (p : Platform) where
  answer : (key : Text) → Option ℕ → Result Fatal ℕ
  answer key none = err (bad_integer key)
  answer key (some n) = ok n

  get_env_int64-set :
      (key : Text) (fallback c : ℕ) (s : Text)
      → p.getenv key ≡ c ∷ s
      → get_env_int64 p key fallback ≡ answer key (parse_positive (c ∷ s))
  unfolding get_env_int64 ◌==◌ answer
  get_env_int64-set key fallback c s set =
      rw (get_env_int64, set) (by_parse (parse_positive (c ∷ s)))
    where
      by_parse :
          (r : Option ℕ)
          → (elim r as (λ _. Result Fatal ℕ) [ none ↦ err (bad_integer key) | some n ↦ ok n ])
            ≡ answer key r
      by_parse none = refl
      by_parse (some n) = refl

  -- A variable that holds a number above 0 in decimal is read as that number if it fits in 64 bits
  -- with a sign, and stops the start otherwise.
  get_env_int64-decimal :
      (key : Text) (fallback n : ℕ)
      → 0 < n
      → p.getenv key ≡ decimal n
      → get_env_int64 p key fallback ≡ (if ltb max_int64 n then err (bad_integer key) else ok n)
  unfolding answer
  get_env_int64-decimal key fallback n pos written =
      let (d, ds, are, _, low, lows) =
        digits_onto-head 10 (omega arith) n n [] (omega arith) pos tt in
      let value : horner 10 0 (d ∷ ds) ≡ n =
        ap (horner 10 0) (sym are)
        ∙ horner-digits_onto 10 (omega arith) n n [] (omega arith)
        ∙ horner-nil n in
      let text : p.getenv key ≡ map (λ e. e + b'0') (d ∷ ds) =
        written ∙ ap (map (λ e. e + b'0')) are in
      let read = parse_positive-digits d n ds (low, lows) value pos in
      get_env_int64-set key fallback (d + b'0') (map (λ e. e + b'0') ds) text
      ∙ ap (answer key) read
      ∙ by_size (ltb max_int64 n)
    where
      by_size :
          (b : Bool)
          → answer key (if b then none else some n) ≡ (if b then err (bad_integer key) else ok n)
      by_size true = refl
      by_size false = refl
