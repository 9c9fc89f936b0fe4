-- ===== src/Did/Base58/Encoding.antt =====
-- base58Decode against the encoding of Bitcoin's base 58.
use atproto_push_gateway.Base.{
  passes_upto, passes_upto-at, ℕ, zero, suc, ◌+◌, ◌*◌, ◌≡◌, ◌<◌, refl, sym, ap, ◌∙◌, Text, Bytes,
  Bool, true, false, List, [], ◌∷◌, ◌++◌, map, none, some, All, nat_eq, nat_eq_iff, if◌then◌else◌,
  arith, horner, digits, digits_onto, set_bytes, int_bytes, horner-digits_onto, digits-horner,
  digits_onto-head, Option-cases, inl, inr,
}
use atproto_push_gateway.Did.Base58.{
  alphabet, index_rune, base58_value, leading_ones, zeros, base58_decode,
}

-- The character of a digit.
unfoldable digit_at : Text → ℕ → ℕ
digit_at [] d = b'1'
digit_at (c ∷ s) zero = c
digit_at (c ∷ s) (suc d) = digit_at s d

unfoldable leading_zeros : Bytes → ℕ
leading_zeros [] = 0
leading_zeros (zero ∷ bs) = suc (leading_zeros bs)
leading_zeros (suc b ∷ bs) = 0

unfoldable ones : ℕ → Text
ones zero = []
ones (suc n) = b'1' ∷ ones n

-- A one for each leading zero byte, and the digits of the number that the bytes stand for.
unfoldable pub base58_encode : Bytes → Text
unfolding leading_zeros ones digit_at
base58_encode bs = ones (leading_zeros bs) ++ map (digit_at alphabet) (digits 58 (set_bytes bs))

is_index : ℕ → Bool
unfolding digit_at index_rune
is_index d = elim (index_rune alphabet (digit_at alphabet d)) [ none ↦ false | some i ↦ nat_eq i d ]

index_table : passes_upto 58 is_index ≡ true
unfolding passes_upto is_index digit_at index_rune
index_table = refl

is_one_table :
    passes_upto 57 (λ d. if nat_eq (digit_at alphabet (suc d)) b'1' then false else true) ≡ true
unfolding passes_upto digit_at
is_one_table = refl

index_rune-digit_at : (d : ℕ) → d < 58 → index_rune alphabet (digit_at alphabet d) ≡ some d
unfolding is_index
index_rune-digit_at d low =
    let found : is_index d ≡ true = passes_upto-at 58 is_index d index_table low in
    elim (Option-cases (index_rune alphabet (digit_at alphabet d))) [
      | inl missing ↦ absurd (ground (arith, missing))
      | inr (i, there) ↦ there ∙ ap some ((nat_eq_iff i d).0 (ground (arith, there)))
    ]

base58_value-step :
    (n c i : ℕ) (s : Text)
    → index_rune alphabet c ≡ some i
    → base58_value n (c ∷ s) ≡ base58_value (n * 58 + i) s
unfolding base58_value
base58_value-step n c i s e = rw (base58_value, e) refl

base58_value-digits :
    (n : ℕ) (ds : List ℕ)
    → All (λ d. d < 58) ds
    → base58_value n (map (digit_at alphabet) ds) ≡ some (horner 58 n ds)
unfolding base58_value horner
base58_value-digits n [] low = refl
base58_value-digits n (d ∷ ds) (low, lows) =
    let next : n * 58 + d ≡ 58 * n + d = omega arith in
    base58_value-step n (digit_at alphabet d) d (map (digit_at alphabet) ds)
      (index_rune-digit_at d low)
    ∙ ap (λ m. base58_value m (map (digit_at alphabet) ds)) next
    ∙ base58_value-digits (58 * n + d) ds lows

base58_value-ones : (n : ℕ) (s : Text) → base58_value 0 (ones n ++ s) ≡ base58_value 0 s
unfolding base58_value ones index_rune
base58_value-ones zero s = refl
base58_value-ones (suc n) s = base58_value-ones n s

leading_ones-ones : (n : ℕ) (s : Text) → leading_ones (ones n ++ s) ≡ n + leading_ones s
unfolding leading_ones ones
leading_ones-ones zero s = omega arith
leading_ones-ones (suc n) s = omega (arith, leading_ones-ones n s)

zeros-int_bytes :
    (bs : Bytes) → All (λ b. b < 256) bs → zeros (leading_zeros bs) ++ int_bytes (set_bytes bs) ≡ bs
unfolding zeros leading_zeros horner digits_onto
zeros-int_bytes [] low = refl
zeros-int_bytes (zero ∷ bs) (low, lows) = ap (◌∷◌ 0) (zeros-int_bytes bs lows)
zeros-int_bytes (suc b ∷ bs) (low, lows) =
    digits-horner 256 (omega arith) (suc b) bs (omega arith) low lows

-- The first character of the digits of a number that is not 0 is no one.
leading_ones-digits :
    (d : ℕ) (ds : List ℕ) → 0 < d → d < 58 → leading_ones (map (digit_at alphabet) (d ∷ ds)) ≡ 0
unfolding leading_ones
leading_ones-digits zero ds pos low = absurd (omega (arith, pos))
leading_ones-digits (suc d) ds pos low =
    let other =
      passes_upto-at 57 (λ d. if nat_eq (digit_at alphabet (suc d)) b'1' then false else true) d
        is_one_table (omega (arith, low)) in
    ground (arith, other)

horner-nil : (m : ℕ) → horner 58 m [] ≡ m
unfolding horner
horner-nil m = refl

-- What the decoder reads from the digits of a number, after some ones.
read_digits :
    (n z d : ℕ) (ds : List ℕ)
    → digits 58 n ≡ d ∷ ds
    → 0 < d
    → d < 58
    → All (λ e. e < 58) ds
    → (base58_value 0 (ones z ++ map (digit_at alphabet) (digits 58 n)) ≡ some n)
      × (leading_ones (ones z ++ map (digit_at alphabet) (digits 58 n)) ≡ z)
read_digits n z d ds are pos low lows =
    let text = map (digit_at alphabet) (d ∷ ds) in
    let back : horner 58 0 (d ∷ ds) ≡ n =
      ap (horner 58 0) (sym are)
      ∙ horner-digits_onto 58 (omega arith) n n [] (omega arith)
      ∙ horner-nil n in
    rw are (
      base58_value-ones z text ∙ base58_value-digits 0 (d ∷ ds) (low, lows) ∙ ap some back,
      leading_ones-ones z text ∙ omega (arith, leading_ones-digits d ds pos low),
    )

decode_digits :
    (n z : ℕ)
    → (base58_value 0 (ones z ++ map (digit_at alphabet) (digits 58 n)) ≡ some n)
      × (leading_ones (ones z ++ map (digit_at alphabet) (digits 58 n)) ≡ z)
unfolding leading_ones digits_onto base58_value
decode_digits zero z = (base58_value-ones z [], leading_ones-ones z [] ∙ omega arith)
decode_digits (suc n) z =
    let (d, ds, are, pos, low, lows) =
      digits_onto-head 58 (omega arith) (suc n) (suc n) [] (omega arith) (omega arith) tt in
    read_digits (suc n) z d ds are pos low lows

base58_decode-read :
    (s : Text) (n z : ℕ)
    → base58_value 0 s ≡ some n
    → leading_ones s ≡ z
    → base58_decode s ≡ some (zeros z ++ int_bytes n)
unfolding base58_decode zeros
base58_decode-read s n z value count = rw (base58_decode, value, count) refl

-- Decoding the base-58 encoding of bytes gives the bytes back, leading zeros included.
pub base58_decode-encode :
    (bs : Bytes) → All (λ b. b < 256) bs → base58_decode (base58_encode bs) ≡ some bs
unfolding base58_encode
base58_decode-encode bs low =
    let (value, count) = decode_digits (set_bytes bs) (leading_zeros bs) in
    base58_decode-read (base58_encode bs) (set_bytes bs) (leading_zeros bs) value count
    ∙ ap some (zeros-int_bytes bs low)
