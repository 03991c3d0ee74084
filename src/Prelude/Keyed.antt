-- ===== src/Prelude/Keyed.antt =====
-- Maps whose keys are distinct, and whose keys can be read off the values.
use Prim.Native.String.{String}
use mathlib.Core.Bool.{true, false}
use mathlib.Core.List.{List, [], ◌∷◌, map, Permᴰ}
use mathlib.Core.Logic.{◌≢◌}
use mathlib.Core.Option.{some}
use mathlib.Core.Path.{◌≡◌, refl, sym, ap₂, ◌∙◌}
use native.Mathlib.Omega.{arith}
use text.Mathlib.TextEquality.{eq_iff}
use locate.Prelude.Lists.{All, All-map, All-both}
use locate.Prelude.Maps.{Map, lookup, insert, keys, values, contains, contains-keys-insert}
use locate.Prelude.Perm.{Distinct}

module _ {ℓ} {V : Type ℓ} where
  abbrev pub DistinctKeys : Map V → Type 0
  DistinctKeys [] = Unit
  DistinctKeys ((k, v) ∷ m) = (contains (keys m) k ≡ false) × DistinctKeys m

  abbrev pub KeyedBy : (V → String) → Map V → Type 0
  KeyedBy f [] = Unit
  KeyedBy f ((k, v) ∷ m) = (f v ≡ k) × KeyedBy f m

  pub DistinctKeys-insert :
      (k : String) (v : V) (m : Map V) → DistinctKeys m → DistinctKeys (insert k v m)
  unfolding insert keys contains
  DistinctKeys-insert k v [] d = (refl, tt)
  DistinctKeys-insert k v ((j, w) ∷ m) d =
      ground
        (arith, eq_iff j k, eq_iff k j, contains-keys-insert k j v m, DistinctKeys-insert k v m d.1)

  pub KeyedBy-insert :
      (f : V → String) (k : String) (v : V) (m : Map V)
      → f v ≡ k
      → KeyedBy f m
      → KeyedBy f (insert k v m)
  unfolding insert
  KeyedBy-insert f k v [] e h = (e, tt)
  KeyedBy-insert f k v ((j, w) ∷ m) e h = ground (arith, eq_iff j k, KeyedBy-insert f k v m e h.1)

  pub lookup-KeyedBy :
      (f : V → String) (k : String) (v : V) (m : Map V)
      → KeyedBy f m
      → lookup k m ≡ some v
      → f v ≡ k
  unfolding lookup
  lookup-KeyedBy f k v [] h e = cc
  lookup-KeyedBy f k v ((j, w) ∷ m) h e = ground (arith, eq_iff j k, lookup-KeyedBy f k v m h.1)

  values_ne :
      (f : V → String) (j : String) (m : Map V)
      → KeyedBy f m
      → contains (keys m) j ≡ false
      → All (λ v. j ≢ f v) (values m)
  unfolding values keys contains
  values_ne f j [] h n = tt
  values_ne f j ((k, v) ∷ m) h n =
      (λ e. ground (arith, eq_iff k j), values_ne f j m h.1 (ground arith))

  -- Every value is what the map has at the value's own key.
  pub values-lookup :
      (f : V → String) (m : Map V)
      → KeyedBy f m
      → DistinctKeys m
      → All (λ v. lookup (f v) m ≡ some v) (values m)
  unfolding values lookup
  values-lookup f [] h d = tt
  values-lookup f ((k, v) ∷ m) h d = (
    ground (arith, eq_iff k (f v)),
    All-map _ _ (values m) (λ w x. ground (arith, eq_iff k (f w), x.0, x.1))
        (All-both _ _ (values m) (values_ne f k m h.1 d.0) (values-lookup f m h.1 d.1)),
  )

  pub values-Distinct :
      (f : V → String) (m : Map V) → KeyedBy f m → DistinctKeys m → Distinct f (values m)
  unfolding values
  values-Distinct f [] h d = tt
  values-Distinct f ((k, v) ∷ m) h d = (
    All-map _ _ (values m) (λ w n e. n (sym h.0 ∙ e)) (values_ne f k m h.1 d.0),
    values-Distinct f m h.1 d.1,
  )

  pub map-values : (f : V → String) (m : Map V) → KeyedBy f m → map f (values m) ≡ keys m
  unfolding values keys
  map-values f [] h = refl
  map-values f ((k, v) ∷ m) h = ap₂ ◌∷◌ h.0 (map-values f m h.1)

  pub lookup-contains :
      (k : String) (v : V) (m : Map V) → lookup k m ≡ some v → contains (keys m) k ≡ true
  unfolding lookup contains keys
  lookup-contains k v [] e = cc
  lookup-contains k v ((j, w) ∷ m) e = ground (arith, lookup-contains k v m)

pub contains-perm : {xs ys : List String} (s : String) → Permᴰ xs ys → contains xs s ≡ contains ys s
unfolding contains
contains-perm s Permᴰ.nil = refl
contains-perm s (Permᴰ.cons e p) = ground (arith, e, contains-perm s p)
contains-perm s (Permᴰ.swap e f) = ground (arith, e, f)
contains-perm s (Permᴰ.trans p q) = contains-perm s p ∙ contains-perm s q
