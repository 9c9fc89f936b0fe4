-- ===== src/Base/Strings.antt =====
-- A Go string as the list of its code points, and the functions of package strings that the
-- program calls. A length in bytes is the sum of the widths in UTF-8.
use Prim.Native.Char.{code}
use Prim.Native.String.{String}
use Prim.Native.Nat.{ℕ, ◌+◌}
use mathlib.Core.Path.{◌≡◌, refl}
use mathlib.Core.Logic.{inl, inr, ◌↔◌, ◌≢◌}
use mathlib.Core.Bool.{Bool, true, false, ◌&&◌, ◌||◌}
use mathlib.Core.Option.{Option, none, some}
use mathlib.Core.List.{List, [], ◌∷◌, ◌++◌}
use native.Mathlib.Omega.{arith}
use atproto_push_gateway.Base.Tests.{Bool-cases, if◌then◌else◌, nat_eq, leb, ltb}

abbrev pub Text : Type 0
Text = List ℕ

abbrev pub Bytes : Type 0
Bytes = List ℕ

-- A string literal.
abbrev pub lit : String → Text
lit String.[] = []
lit (String.◌∷◌ c s) = code c ∷ lit s

infix 50 ◌==◌
unfoldable pub ◌==◌ : Text → Text → Bool
[] == [] = true
[] == (y ∷ ys) = false
(x ∷ xs) == [] = false
(x ∷ xs) == (y ∷ ys) = nat_eq x y && xs == ys

eq-same : (s t : Text) → (s == t) ≡ true → s ≡ t
unfolding ◌==◌
eq-same [] [] h = refl
eq-same [] (y ∷ ys) h = ground arith
eq-same (x ∷ xs) [] h = ground arith
eq-same (x ∷ xs) (y ∷ ys) h = ground (arith, eq-same xs ys)

pub eq_refl : (s : Text) → (s == s) ≡ true
unfolding ◌==◌
eq_refl [] = refl
eq_refl (x ∷ xs) = ground (arith, eq_refl xs)

-- The test decides equality.
pub eq_iff : (s t : Text) → ((s == t) ≡ true) ↔ (s ≡ t)
eq_iff s t = (eq-same s t, λ e. ground (arith, eq_refl s))

-- The number of bytes of a code point in UTF-8.
unfoldable pub rune_len : ℕ → ℕ
rune_len c = if ltb c 0x80 then 1 else if ltb c 0x800 then 2 else if ltb c 0x10000 then 3 else 4

-- len(s).
unfoldable pub byte_len : Text → ℕ
unfolding rune_len
byte_len [] = 0
byte_len (c ∷ s) = rune_len c + byte_len s

-- strings.HasPrefix(s, prefix).
unfoldable pub has_prefix : Text → Text → Bool
has_prefix s [] = true
has_prefix [] (p ∷ ps) = false
has_prefix (c ∷ s) (p ∷ ps) = nat_eq c p && has_prefix s ps

-- unicode.IsSpace.
unfoldable pub is_space : ℕ → Bool
is_space c =
    (leb 9 c && leb c 13)
    || nat_eq c 0x20
    || nat_eq c 0x85
    || nat_eq c 0xA0
    || nat_eq c 0x1680
    || (leb 0x2000 c && leb c 0x200A)
    || nat_eq c 0x2028
    || nat_eq c 0x2029
    || nat_eq c 0x202F
    || nat_eq c 0x205F
    || nat_eq c 0x3000

unfoldable pub trim_left : Text → Text
unfolding is_space
trim_left [] = []
trim_left (c ∷ s) = if is_space c then trim_left s else c ∷ s

-- A space at the end is dropped with all that are after it.
unfoldable pub trim_right : Text → Text
unfolding is_space
trim_right [] = []
trim_right (c ∷ s) =
    let rest = trim_right s in
    elim rest [ [] ↦ if is_space c then [] else c ∷ [] | d ∷ r ↦ c ∷ d ∷ r ]

-- strings.TrimSpace.
unfoldable pub trim_space : Text → Text
unfolding trim_left trim_right
trim_space s = trim_right (trim_left s)

-- strings.Cut(s, string(sep)): what is before the first separator, and what is after it.
unfoldable pub cut : ℕ → Text → Option (Text × Text)
cut sep [] = none
cut sep (c ∷ s) =
    let rest = cut sep s in
    if nat_eq c sep then some ([], s) else elim rest [ none ↦ none | some (a, b) ↦ some (c ∷ a, b) ]

-- strings.Split(s, string(sep)): the first part and the others.
unfoldable pub split_parts : ℕ → Text → Text × List Text
split_parts sep [] = ([], [])
split_parts sep (c ∷ s) =
    let (first, others) = split_parts sep s in
    if nat_eq c sep then ([], first ∷ others) else (c ∷ first, others)

unfoldable pub split : ℕ → Text → List Text
unfolding split_parts
split sep s = let (first, others) = split_parts sep s in first ∷ others

-- What stands after the last separator, if there is one.
unfoldable pub after_last : ℕ → Text → Option Text
after_last sep [] = none
after_last sep (c ∷ s) =
    let rest = after_last sep s in
    elim rest [ some r ↦ some r | none ↦ if nat_eq c sep then some s else none ]

-- The case folding of the ASCII letters.
unfoldable pub lower : ℕ → ℕ
lower c = if leb b'A' c && leb c b'Z' then c + 32 else c

-- unicode.ToLower wherever it gives an ASCII letter (also from U+0130 and U+212A); a letter whose
-- lower case is not ASCII is left.
unfoldable pub to_lower : ℕ → ℕ
unfolding lower
to_lower c = if nat_eq c 0x130 then b'i' else if nat_eq c 0x212A then b'k' else lower c

-- The separator does not occur.
abbrev pub Lacks : ℕ → Text → Type 0
Lacks sep [] = Unit
Lacks sep (c ∷ s) = (c ≢ sep) × Lacks sep s

pub cut-append : (sep : ℕ) (a b : Text) → Lacks sep a → cut sep (a ++ sep ∷ b) ≡ some (a, b)
unfolding cut
cut-append sep [] b h = ground arith
cut-append sep (c ∷ a) b (p, h) = ground (arith, cut-append sep a b h)

pub cut-none : (sep : ℕ) (s : Text) → Lacks sep s → cut sep s ≡ none
unfolding cut
cut-none sep [] h = refl
cut-none sep (c ∷ s) (p, h) = ground (arith, cut-none sep s h)

pub split_parts_of_Lacks : (sep : ℕ) (a : Text) → Lacks sep a → split_parts sep a ≡ (a, [])
unfolding split_parts
split_parts_of_Lacks sep [] h = refl
split_parts_of_Lacks sep (c ∷ a) (p, h) = ground (arith, split_parts_of_Lacks sep a h)

pub split_parts-append :
    (sep : ℕ) (a b : Text) → Lacks sep a → split_parts sep (a ++ sep ∷ b) ≡ (a, split sep b)
unfolding split_parts split
split_parts-append sep [] b h = ground arith
split_parts-append sep (c ∷ a) b (p, h) = ground (arith, split_parts-append sep a b h)

pub after_last_of_Lacks : (sep : ℕ) (s : Text) → Lacks sep s → after_last sep s ≡ none
unfolding after_last
after_last_of_Lacks sep [] h = refl
after_last_of_Lacks sep (c ∷ s) (p, h) = ground (arith, after_last_of_Lacks sep s h)

pub after_last-append :
    (sep : ℕ) (a b : Text) → Lacks sep b → after_last sep (a ++ sep ∷ b) ≡ some b
unfolding after_last
after_last-append sep [] b h = ground (arith, after_last_of_Lacks sep b h)
after_last-append sep (c ∷ a) b h = ground (arith, after_last-append sep a b h)

trim_left-append :
    (a : Text) (c : ℕ) (b : Text)
    → is_space c ≡ false
    → (a' : Text) × (trim_left (a ++ c ∷ b) ≡ a' ++ c ∷ b)
unfolding trim_left
trim_left-append [] c b h = ([], ground arith)
trim_left-append (d ∷ a) c b h = elim (Bool-cases (is_space d)) [
  | inl space ↦ (let (a', e) = trim_left-append a c b h in (a', ground arith))
  | inr ink ↦ (d ∷ a, ground arith)
]

trim_right-ne-nil :
    (a : Text) (c : ℕ) (b : Text) → is_space c ≡ false → trim_right (a ++ c ∷ b) ≢ []
unfolding trim_right
trim_right-ne-nil [] c [] h = ground arith
trim_right-ne-nil [] c (d ∷ b) h = ground arith
trim_right-ne-nil (d ∷ a) c b h = ground (arith, trim_right-ne-nil a c b h)

-- A text with a character that is no space is not trimmed to nothing.
pub trim_space-ne-nil :
    (a : Text) (c : ℕ) (b : Text) → is_space c ≡ false → trim_space (a ++ c ∷ b) ≢ []
unfolding trim_space
trim_space-ne-nil a c b h =
    let (a', e) = trim_left-append a c b h in rw e (trim_right-ne-nil a' c b h)
