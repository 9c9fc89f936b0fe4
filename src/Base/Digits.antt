-- ===== src/Base/Digits.antt =====
-- Numbers as their digits, the most significant first: what big.Int does in SetBytes and Bytes, and
-- what a positional encoding does in any base.
use Prim.Native.Nat.{ℕ, zero, suc, ◌+◌, ◌*◌, ◌/◌, ◌%◌, ◌≤◌, ◌<◌}
use mathlib.Core.Path.{◌≡◌, refl, ap, ◌∙◌}
use mathlib.Core.Bool.{false}
use mathlib.Core.List.{List, [], ◌∷◌, ◌++◌, map, append-nil}
use mathlib.Core.Logic.{inl, inr}
use native.Mathlib.Omega.{arith}
use native.Mathlib.Nat.{
  div-add-mod, div-lt_self, mul-add-div, mul-add-mod_self_left, mod-lt, div-eq_of_lt, mod-eq_of_lt,
}
use atproto_push_gateway.Base.Tests.{nat_eq, if◌then◌else◌, Bool-cases}
use atproto_push_gateway.Base.Lists.{All}

-- The number of digits read after `n`.
unfoldable pub horner : (base n : ℕ) → List ℕ → ℕ
horner base n [] = n
horner base n (d ∷ ds) = horner base (base * n + d) ds

-- The digits of `n` before `acc`, with fuel.
unfoldable pub digits_onto : (base fuel n : ℕ) → List ℕ → List ℕ
digits_onto base zero n acc = acc
digits_onto base (suc f) n acc =
    let rest = digits_onto base f (n / base) (n % base ∷ acc) in if nat_eq n 0 then acc else rest

-- The digits of a number, with no leading zero; the number itself is fuel enough.
abbrev pub digits : (base : ℕ) → ℕ → List ℕ
digits base n = digits_onto base n n []

-- A number above 0 in decimal.
abbrev pub decimal : ℕ → List ℕ
decimal n = map (λ d. d + b'0') (digits 10 n)

-- big.Int.SetBytes and big.Int.Bytes.
abbrev pub set_bytes : List ℕ → ℕ
set_bytes bytes = horner 256 0 bytes

abbrev pub int_bytes : ℕ → List ℕ
int_bytes n = digits 256 n

suc-nat_eq : (n : ℕ) → nat_eq (suc n) 0 ≡ false
suc-nat_eq n = ground arith

module _ (base : ℕ) (wide : 1 < base) where
  -- More fuel changes nothing once there is enough.
  digits_onto-fuel :
      (f g n : ℕ) (acc : List ℕ)
      → n ≤ f
      → n ≤ g
      → digits_onto base f n acc ≡ digits_onto base g n acc
  unfolding digits_onto
  digits_onto-fuel zero zero n acc p q = refl
  digits_onto-fuel zero (suc g) n acc p q = ground arith
  digits_onto-fuel (suc f) zero n acc p q = ground arith
  digits_onto-fuel (suc f) (suc g) zero acc p q = refl
  digits_onto-fuel (suc f) (suc g) (suc n) acc p q =
      let smaller : suc n / base < suc n = div-lt_self (omega arith) wide in
      rw (suc-nat_eq n) (
        digits_onto-fuel f g (suc n / base) (suc n % base ∷ acc) (omega (arith, smaller))
          (omega (arith, smaller)))

  -- The last digit comes before `acc`.
  digits_onto-step :
      (n : ℕ) (acc : List ℕ)
      → 0 < n
      → digits_onto base n n acc ≡ digits_onto base (n / base) (n / base) (n % base ∷ acc)
  unfolding digits_onto
  digits_onto-step zero acc h = absurd (omega arith)
  digits_onto-step (suc n) acc h =
      let smaller : suc n / base < suc n = div-lt_self (omega arith) wide in
      rw (suc-nat_eq n) (
        digits_onto-fuel n (suc n / base) (suc n / base) (suc n % base ∷ acc)
          (omega (arith, smaller)) (omega arith))

  -- With fuel enough the digits read back as the number.
  pub horner-digits_onto :
      (f n : ℕ) (acc : List ℕ)
      → n ≤ f
      → horner base 0 (digits_onto base f n acc) ≡ horner base n acc
  unfolding digits_onto horner
  horner-digits_onto zero n acc h = ground arith
  horner-digits_onto (suc f) zero acc h = refl
  horner-digits_onto (suc f) (suc n) acc h =
      let smaller : suc n / base < suc n = div-lt_self (omega arith) wide in
      rw (suc-nat_eq n) (
        horner-digits_onto f (suc n / base) (suc n % base ∷ acc) (omega (arith, smaller))
        ∙ ap (λ k. horner base k acc) (div-add-mod (suc n) base))

  horner_pos : (n : ℕ) (ds : List ℕ) → 0 < n → 0 < horner base n ds
  unfolding horner
  horner_pos n [] h = h
  horner_pos n (d ∷ ds) h = horner_pos (base * n + d) ds (grind arith)

  -- Digits that follow a number which is not 0 are its last ones.
  digits_onto-horner :
      (n : ℕ) (ds acc : List ℕ)
      → 0 < n
      → All (λ d. d < base) ds
      → digits_onto base (horner base n ds) (horner base n ds) acc
        ≡ digits_onto base n n (ds ++ acc)
  unfolding horner
  digits_onto-horner n [] acc h hs = refl
  digits_onto-horner n (d ∷ ds) acc h (low, hs) =
      let m = base * n + d in
      let quotient : m / base ≡ n =
        mul-add-div {m = base} (omega (arith, wide)) n d
        ∙ ap (λ q. n + q) (div-eq_of_lt low)
        ∙ omega arith in
      let last : m % base ≡ d = mul-add-mod_self_left base n d ∙ mod-eq_of_lt low in
      digits_onto-horner m ds acc (grind arith) hs
      ∙ digits_onto-step m (ds ++ acc) (grind arith)
      ∙ rw (quotient, last) refl

  -- The digits of the number that digits with no leading zero stand for are those digits.
  pub digits-horner :
      (d : ℕ) (ds : List ℕ)
      → 0 < d
      → d < base
      → All (λ e. e < base) ds
      → digits base (horner base 0 (d ∷ ds)) ≡ d ∷ ds
  unfolding horner digits_onto
  digits-horner d ds pos low lows =
      let start : base * 0 + d ≡ d = omega arith in
      let quotient : d / base ≡ 0 = div-eq_of_lt low in
      let last : d % base ≡ d = mod-eq_of_lt low in
      rw start (
        digits_onto-horner d ds [] pos lows
        ∙ digits_onto-step d (ds ++ []) pos
        ∙ rw (quotient, last) (ap (◌∷◌ d) (append-nil ds)))

  -- The digits of a number that is not 0 start with one that is not 0, and are below the base.
  pub digits_onto-head :
      (f n : ℕ) (acc : List ℕ)
      → n ≤ f
      → 0 < n
      → All (λ e. e < base) acc
      → (d : ℕ) × (ds : List ℕ) × (digits_onto base f n acc ≡ d ∷ ds)
        × (0 < d)
        × (d < base)
        × All (λ e. e < base) ds
  unfolding digits_onto
  digits_onto-head zero n acc h pos low = absurd (omega (arith, h, pos))
  digits_onto-head (suc f) zero acc h pos low = absurd (omega (arith, pos))
  digits_onto-head (suc f) (suc n) acc h pos low =
      let smaller : suc n / base < suc n = div-lt_self (omega arith) wide in
      let last : suc n % base < base = mod-lt (suc n) (omega (arith, wide)) in
      elim (Bool-cases (nat_eq (suc n / base) 0)) [
        | inr more ↦ rw (suc-nat_eq n) (
            digits_onto-head f (suc n / base) (suc n % base ∷ acc) (omega (arith, smaller))
              (ground (arith, more)) (last, low))
        | inl none_left ↦
            (let gone : suc n / base ≡ 0 = ground (arith, none_left) in
              let whole : suc n % base ≡ suc n = digit_alone (suc n) gone in
              (
                suc n % base,
                acc,
                rw (suc-nat_eq n, gone) (digits_onto-zero f (suc n % base ∷ acc)),
                omega (arith, whole),
                last,
                low,
              ))
      ]
    where
      digit_alone : (m : ℕ) → m / base ≡ 0 → m % base ≡ m
      digit_alone m gone = grind (arith, div-add-mod m base)

      digits_onto-zero : (g : ℕ) (rest : List ℕ) → digits_onto base g 0 rest ≡ rest
      digits_onto-zero zero rest = refl
      digits_onto-zero (suc g) rest = refl
