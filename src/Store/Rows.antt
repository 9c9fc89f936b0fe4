-- ===== src/Store/Rows.antt =====
-- store.go: the loops over the rows of a query. None of them looks at rows.Err(): where a call of
-- Next fails, the loop ends as if there were no more rows. Scan does
-- not fail, as the columns are texts that are not null.
use mathlib.Core.List
use mathlib.Core.List.{Perm}
use atproto_push_gateway.Base.{
  ℕ, suc, ◌≡◌, refl, ◌==◌, eq_iff, Text, Bool, true, false, ◌&&◌, ◌||◌, List, [], ◌∷◌, ltb, nat_eq,
  some_of, if◌then◌else◌, arith, Bool-cases, inl, inr,
}
use atproto_push_gateway.Store.{Db, Statement, next}

-- The rows that a loop gets, from the one with this number on.
unfoldable pub read_rows : {A : Type 0} → Db → Statement → ℕ → List A → List A
read_rows db query n [] = []
read_rows db query n (r ∷ rows) =
    let rest = read_rows db query (suc n) rows in if db (next query n) then r ∷ rest else []

-- SQLite's order of texts, where UTF-8 has the order of the code points.
unfoldable pub precedes : Text → Text → Bool
precedes [] t = true
precedes (c ∷ s) [] = false
precedes (c ∷ s) (d ∷ t) = ltb c d || (nat_eq c d && precedes s t)

module _ {A : Type 0} (key : A → Text) where
  unfoldable pub insert_by : A → List A → List A
  unfolding precedes
  insert_by x [] = x ∷ []
  insert_by x (y ∷ ys) =
      let rest = insert_by x ys in if precedes (key x) (key y) then x ∷ y ∷ ys else y ∷ rest

  -- The order in which an index on the key gives the rows.
  unfoldable pub order_by : List A → List A
  unfolding insert_by
  order_by [] = []
  order_by (x ∷ xs) = insert_by x (order_by xs)

-- Each value once, as SELECT DISTINCT gives them.
unfoldable pub distinct : List Text → List Text
distinct [] = []
distinct (t ∷ ts) = let rest = distinct ts in if some_of (λ u. u == t) rest then rest else t ∷ rest

-- No call of Next fails.
abbrev pub IsWhole : Db → Statement → Type 0
IsWhole db query = (n : ℕ) → db (next query n) ≡ true

pub read_rows_whole :
    {A : Type 0} (db : Db) (query : Statement) (n : ℕ) (rows : List A)
    → IsWhole db query
    → read_rows db query n rows ≡ rows
unfolding read_rows
read_rows_whole db query n [] whole = refl
read_rows_whole db query n (r ∷ rows) whole =
    ground (arith, whole n, read_rows_whole db query (suc n) rows whole)

module _ {A : Type 0} (key : A → Text) where
  insert_by-Perm : (x : A) (ys : List A) → Perm (insert_by key x ys) (x ∷ ys)
  unfolding insert_by
  insert_by-Perm x [] = List.Perm.refl (x ∷ [])
  insert_by-Perm x (y ∷ ys) = elim (Bool-cases (precedes (key x) (key y))) [
    | inl first ↦ rw (first, insert_by) (List.Perm.refl (x ∷ y ∷ ys))
    | inr later ↦
        rw (later, insert_by)
          (List.Perm.trans (List.Perm.cons y (insert_by-Perm x ys)) (List.Perm.swap x y ys))
  ]

  pub order_by-Perm : (xs : List A) → Perm (order_by key xs) xs
  unfolding order_by
  order_by-Perm [] = List.Perm.refl []
  order_by-Perm (x ∷ xs) =
      List.Perm.trans (insert_by-Perm x (order_by key xs)) (List.Perm.cons x (order_by-Perm xs))

  some_of-insert_by :
      (p : A → Bool) (x : A) (ys : List A) → some_of p (insert_by key x ys) ≡ (p x || some_of p ys)
  unfolding insert_by
  some_of-insert_by p x [] = refl
  some_of-insert_by p x (y ∷ ys) = ground (arith, some_of-insert_by p x ys)

  pub some_of-order_by : (p : A → Bool) (xs : List A) → some_of p (order_by key xs) ≡ some_of p xs
  unfolding order_by
  some_of-order_by p [] = refl
  some_of-order_by p (x ∷ xs) =
      ground (arith, some_of-order_by p xs, some_of-insert_by p x (order_by key xs))

pub some_of-distinct :
    (t : Text) (ts : List Text) → some_of (λ u. u == t) (distinct ts) ≡ some_of (λ u. u == t) ts
unfolding distinct
some_of-distinct t [] = refl
some_of-distinct t (u ∷ us) = elim (Bool-cases (u == t)) [
  | inl same ↦
      rw ((eq_iff u t).0 same) (ground (arith, some_of-distinct t us, same, (eq_iff u t).0 same))
  | inr other ↦ ground (arith, other, some_of-distinct t us)
]
