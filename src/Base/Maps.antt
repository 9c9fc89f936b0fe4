-- ===== src/Base/Maps.antt =====
-- A Go map with string keys as an association list with one entry for each key: a write
-- replaces, a read of a missing key finds none, delete drops the key.
use Prim.Native.Nat.{◌+◌, ◌≤◌}
use mathlib.Core.Logic.{inl, inr}
use mathlib.Core.Path.{◌≡◌, refl}
use mathlib.Core.Bool.{◌&&◌}
use mathlib.Core.Option.{Option, none, some}
use mathlib.Core.List.{List, [], ◌∷◌}
use native.Mathlib.Omega.{arith}
use atproto_push_gateway.Base.Tests.{if◌then◌else◌, Option-cases}
use atproto_push_gateway.Base.Lists.{length}
use atproto_push_gateway.Base.Strings.{Text, ◌==◌, eq_iff}

abbrev pub Map {ℓ} : Type ℓ → Type ℓ
Map V = List (Text × V)

module _ {ℓ} {V : Type ℓ} where
  -- m[key]
  unfoldable pub lookup : Text → Map V → Option V
  lookup key [] = none
  lookup key ((name, value) ∷ others) = if name == key then some value else lookup key others

  -- delete(m, key)
  unfoldable pub delete : Text → Map V → Map V
  delete key [] = []
  delete key ((name, value) ∷ others) =
      let rest = delete key others in if name == key then rest else (name, value) ∷ rest

  -- m[key] = new
  unfoldable pub insert : Text → V → Map V → Map V
  insert key new [] = (key, new) ∷ []
  insert key new ((name, old) ∷ others) =
      if name == key then (key, new) ∷ others else (name, old) ∷ insert key new others

  pub lookup-insert :
      (key asked : Text) (new : V) (m : Map V)
      → lookup asked (insert key new m) ≡ (if key == asked then some new else lookup asked m)
  unfolding insert lookup
  lookup-insert key asked new [] = refl
  lookup-insert key asked new ((name, old) ∷ others) = ground (
    arith,
    lookup-insert key asked new others,
    eq_iff name key,
    eq_iff name asked,
    eq_iff key asked,
  )

  pub lookup-delete :
      (k j : Text) (m : Map V) → lookup j (delete k m) ≡ (if k == j then none else lookup j m)
  unfolding lookup delete
  lookup-delete k j [] = ground arith
  lookup-delete k j ((i, w) ∷ m) =
      ground (arith, eq_iff k j, eq_iff i k, eq_iff i j, lookup-delete k j m)

  pub length-insert-le : (k : Text) (v : V) (m : Map V) → length (insert k v m) ≤ length m + 1
  unfolding insert
  length-insert-le k v [] = omega arith
  length-insert-le k v ((j, w) ∷ m) = ground (arith, length-insert-le k v m)

  pub length-delete-le : (k : Text) (m : Map V) → length (delete k m) ≤ length m
  unfolding delete
  length-delete-le k [] = omega arith
  length-delete-le k ((j, w) ∷ m) = ground (arith, length-delete-le k m)

-- A map of maps, read as map[string]map[string]V is: a missing inner map reads as an empty one.
module _ {ℓ} {V : Type ℓ} where
  abbrev inner : Text → Map (Map V) → Map V
  inner a m = elim (lookup a m) [ none ↦ [] | some n ↦ n ]

  -- m[a][b]
  unfoldable pub lookup_in : Text → Text → Map (Map V) → Option V
  lookup_in a b m = lookup b (inner a m)

  -- if m[a] == nil { m[a] = make(...) }; m[a][b] = v
  unfoldable pub insert_in : Text → Text → V → Map (Map V) → Map (Map V)
  insert_in a b v m = insert a (insert b v (inner a m)) m

  -- if m[a] != nil { delete(m[a], b) }
  unfoldable pub delete_in : Text → Text → Map (Map V) → Map (Map V)
  delete_in a b m = elim (lookup a m) [ none ↦ m | some n ↦ insert a (delete b n) m ]

  pub lookup_in-insert_in :
      (a b c d : Text) (v : V) (m : Map (Map V))
      → lookup_in c d (insert_in a b v m) ≡ (if a == c && b == d then some v else lookup_in c d m)
  unfolding lookup_in insert_in
  lookup_in-insert_in a b c d v m = ground (
    arith,
    eq_iff a c,
    lookup-insert a c (insert b v (inner a m)) m,
    lookup-insert b d v (inner a m),
  )

  pub lookup_in-delete_in :
      (a b c d : Text) (m : Map (Map V))
      → lookup_in c d (delete_in a b m) ≡ (if a == c && b == d then none else lookup_in c d m)
  unfolding lookup_in delete_in lookup
  lookup_in-delete_in a b c d m = elim (Option-cases (lookup a m)) [
    | inl missing ↦ ground (arith, missing, eq_iff a c, lookup_nil d)
    | inr (n, found) ↦
        ground (arith, found, eq_iff a c, lookup-insert a c (delete b n) m, lookup-delete b d n)
  ]
    where
      lookup_nil : (k : Text) → lookup {V = V} k [] ≡ none
      lookup_nil k = refl
