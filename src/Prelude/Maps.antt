-- ===== src/Prelude/Maps.antt =====
-- Go's `map[string]V` as an association list. An assignment to a key that is there replaces its
-- value in place; `range` walks the list, and theorems over every list cover every order.
use Prim.Native.String.{String}
use mathlib.Core.Bool.{Bool, false, ◌||◌}
use mathlib.Core.List.{List, [], ◌∷◌}
use mathlib.Core.Option.{Option, none, some}
use mathlib.Core.Path.{◌≡◌, refl}
use native.Mathlib.Omega.{arith}
use text.Mathlib.Text.{◌==◌}
use text.Mathlib.TextEquality.{eq_iff}
use locate.Prelude.Tests.{if◌then◌else◌}

abbrev pub Map {ℓ} : Type ℓ → Type ℓ
Map V = List (String × V)

-- `contains` of heartbeat/location.go, and every search of a list for a text
unfoldable pub contains : List String → String → Bool
contains [] value = false
contains (v ∷ sa) value = v == value || contains sa value

module _ {ℓ} {V : Type ℓ} where
  -- `v, ok := m[key]`
  unfoldable pub lookup : String → Map V → Option V
  lookup key [] = none
  lookup key (entry ∷ rest) = if entry.0 == key then some entry.1 else lookup key rest

  -- `m[key] = value`
  unfoldable pub insert : String → V → Map V → Map V
  insert key value [] = (key, value) ∷ []
  insert key value (entry ∷ rest) =
      if entry.0 == key then (entry.0, value) ∷ rest else entry ∷ insert key value rest

  -- `delete(m, key)`
  unfoldable pub erase : String → Map V → Map V
  erase key [] = []
  erase key (entry ∷ rest) =
      let kept = erase key rest in if entry.0 == key then kept else entry ∷ kept

  unfoldable pub values : Map V → List V
  values [] = []
  values ((j, v) ∷ m) = v ∷ values m

  unfoldable pub keys : Map V → List String
  keys [] = []
  keys ((j, v) ∷ m) = j ∷ keys m

  pub lookup-nil : (k : String) → lookup k [] ≡ none
  unfolding lookup
  lookup-nil k = refl

  -- An assignment changes what is read at its key, and nothing else.
  pub lookup-insert :
      (set_key read_key : String) (value : V) (m : Map V)
      → lookup read_key (insert set_key value m)
        ≡ (if set_key == read_key then some value else lookup read_key m)
  unfolding lookup insert
  lookup-insert set_key read_key value [] = ground arith
  lookup-insert set_key read_key value (entry ∷ rest) = ground (
    arith,
    lookup-insert set_key read_key value rest,
    eq_iff entry.0 set_key,
    eq_iff set_key read_key,
    eq_iff entry.0 read_key,
  )

  pub lookup-erase :
      (k j : String) (m : Map V) → lookup j (erase k m) ≡ (if k == j then none else lookup j m)
  unfolding lookup erase
  lookup-erase k j [] = ground arith
  lookup-erase k j ((i, w) ∷ m) =
      ground (arith, eq_iff k j, eq_iff i k, eq_iff i j, lookup-erase k j m)

  pub contains-keys-insert :
      (k j : String) (v : V) (m : Map V)
      → contains (keys (insert k v m)) j ≡ (k == j || contains (keys m) j)
  unfolding contains keys insert
  contains-keys-insert k j v [] = ground arith
  contains-keys-insert k j v ((i, w) ∷ m) =
      ground (arith, eq_iff i k, eq_iff k j, eq_iff i j, contains-keys-insert k j v m)

  -- A key that reads as nothing is none of the keys.
  pub contains-keys-none :
      (j : String) (m : Map V) → lookup j m ≡ none → contains (keys m) j ≡ false
  unfolding lookup contains keys
  contains-keys-none j [] h = refl
  contains-keys-none j ((i, w) ∷ m) h = ground (arith, h, contains-keys-none j m)

pub ruleset map_laws = (lookup-nil, lookup-insert, lookup-erase)
