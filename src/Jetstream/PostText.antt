-- ===== src/Jetstream/PostText.antt =====
-- posttext.go: sanitizePostText and truncatePostText.
pub mod OneLine
use atproto_push_gateway.Base.{
  ℕ, zero, suc, Text, Bool, true, false, ◌||◌, List, [], ◌∷◌, ◌++◌, Option, none, some, length,
  nat_eq, leb, if◌then◌else◌, trim_space,
}

-- A newline, a carriage return or a tab is read as a space.
unfoldable pub as_space : ℕ → ℕ
as_space r = if nat_eq r 10 || nat_eq r 13 || nat_eq r 9 then 0x20 else r

-- The loop over the runes; the flag says whether the last rune that was looked at was a space.
unfoldable pub collapse : Bool → Text → Text
unfolding as_space
collapse prev_space [] = []
collapse prev_space (r ∷ s) =
    let c = as_space r in
    let space = nat_eq c 0x20 in
    let rest = collapse space s in
    if space then (if prev_space then rest else c ∷ rest) else c ∷ rest

unfoldable pub sanitize_post_text : Text → Text
unfolding collapse
sanitize_post_text [] = []
sanitize_post_text (r ∷ s) = trim_space (collapse false (r ∷ s))

-- The loop over the runes: the text up to the rune at which the count is `max`, if it gets there.
unfoldable pub cut_at : ℕ → Text → Option Text
cut_at n [] = none
cut_at zero (c ∷ s) = some []
cut_at (suc n) (c ∷ s) = elim (cut_at n s) [ none ↦ none | some t ↦ some (c ∷ t) ]

abbrev pub ellipsis : ℕ
ellipsis = 0x2026

-- `max` is not negative where the source calls it, and 0 means no limit.
unfoldable pub truncate_post_text : Text → ℕ → Text
unfolding cut_at
truncate_post_text s max =
    if nat_eq max 0
    then s
    else if leb (length s) max
    then s
    else elim (cut_at max s) [ none ↦ s | some t ↦ t ++ ellipsis ∷ [] ]
