-- ===== src/Jetstream/PostText/OneLine.antt =====
-- The text that reaches a lock screen: one line, no runs of spaces, and of bounded length.
use atproto_push_gateway.Base.{
  ℕ, zero, suc, ◌+◌, ◌≤◌, ◌<◌, ◌≡◌, refl, Text, Bool, true, false, ◌&&◌, ◌||◌, [], ◌∷◌, ◌++◌, some,
  length, length-append, take, nat_eq, leb, if◌then◌else◌, trim_space, trim_left, trim_right, arith,
}
use atproto_push_gateway.Jetstream.PostText.{
  collapse, sanitize_post_text, cut_at, ellipsis, truncate_post_text,
}

-- No line break, no tab, and no two spaces in a row; `prev` says that a space stands before.
abbrev pub IsLine : Bool → Text → Type 0
IsLine prev [] = Unit
IsLine prev (c ∷ s) =
    ((nat_eq c 10 || nat_eq c 13 || nat_eq c 9) ≡ false)
    × ((nat_eq c 0x20 && prev) ≡ false)
    × IsLine (nat_eq c 0x20) s

collapse-IsLine : (prev : Bool) (s : Text) → IsLine prev (collapse prev s)
unfolding collapse
collapse-IsLine prev [] = tt
collapse-IsLine true (r ∷ s) = ground (arith, collapse-IsLine true s, collapse-IsLine false s)
collapse-IsLine false (r ∷ s) = ground (arith, collapse-IsLine true s, collapse-IsLine false s)

-- A line is a line wherever what stands before it is no space.
weaken : (prev : Bool) (s : Text) → IsLine prev s → IsLine false s
weaken prev [] h = tt
weaken prev (c ∷ s) (h, k, l) = (h, (ground arith), l)

trim_left-IsLine : (prev : Bool) (s : Text) → IsLine prev s → IsLine false (trim_left s)
unfolding trim_left
trim_left-IsLine prev [] h = tt
trim_left-IsLine prev (c ∷ s) (h, k, l) = ground (arith, trim_left-IsLine (nat_eq c 0x20) s l)

trim_right-IsLine : (prev : Bool) (s : Text) → IsLine prev s → IsLine prev (trim_right s)
unfolding trim_right
trim_right-IsLine prev [] h = tt
trim_right-IsLine prev (c ∷ s) (h, k, l) = ground (arith, trim_right-IsLine (nat_eq c 0x20) s l)

-- The sanitised text has no line break, no tab and no two spaces in a row.
sanitize_post_text-IsLine : (s : Text) → IsLine false (sanitize_post_text s)
unfolding sanitize_post_text trim_space
sanitize_post_text-IsLine [] = tt
sanitize_post_text-IsLine (r ∷ s) =
    trim_right-IsLine false _ (trim_left-IsLine false _ (collapse-IsLine false (r ∷ s)))

cut_at-take : (n : ℕ) (s : Text) → n < length s → cut_at n s ≡ some (take n s)
unfolding cut_at
cut_at-take n [] h = absurd (omega arith)
cut_at-take zero (c ∷ s) h = refl
cut_at-take (suc n) (c ∷ s) h = ground (arith, cut_at-take n s)

length-take_of_le : (n : ℕ) (s : Text) → n ≤ length s → length (take n s) ≡ n
length-take_of_le zero s h = omega arith
length-take_of_le (suc n) [] h = omega arith
length-take_of_le (suc n) (c ∷ s) h = omega (arith, length-take_of_le n s (omega arith))

-- With a limit, a text that is longer becomes its first runes, as many as the limit, and an
-- ellipsis, and any other text stays as it is; so the result has at most one rune more than the
-- limit.
pub truncate_post_text_lem :
    (s : Text) (max : ℕ)
    → 0 < max
    → (truncate_post_text s max ≡ (if leb (length s) max then s else take max s ++ ellipsis ∷ []))
      × (length (truncate_post_text s max) ≤ max + 1)
unfolding truncate_post_text
truncate_post_text_lem s max h = (
  ground (arith, cut_at-take max s),
  ground (
    arith,
    cut_at-take max s,
    length-take_of_le max s,
    length-append (take max s) (ellipsis ∷ []),
  ),
)
