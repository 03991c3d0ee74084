-- ===== src/Memorystore/Scan.antt =====
-- `GetAll`: SCAN from cursor 0 to cursor 0, and HGETALL of every key on the way.
use locate.Prelude.{
  ℕ, zero, suc, ◌≤◌, String, ◌≡◌, ◌≢◌, refl, ◌⊎◌, inl, inr, true, false, Option, none, some, List,
  [], ◌∷◌, ◌++◌, arith, eq_iff, nat_eq, if◌then◌else◌, Result, ok, err, ==_refl, All,
}
use locate.Prelude.Maps.{Map, lookup, insert, contains, lookup-insert, lookup-nil}
use locate.Memorystore.{is_some}

pub data GetAllError : Type 0 where
  scan_error scan_copy_error hgetall_error : GetAllError

-- The server's replies to this connection while `GetAll` runs: SCAN at a cursor, with the copy of its
-- reply, and HGETALL of a key, with `redis.ScanStruct` of its reply (`none` where either fails).
module _ {V : Type 0} (scan : ℕ → Result GetAllError (ℕ × List String))
    (fetch : String → Option V) where
  -- the inner loop
  unfoldable pub read_keys : Map V → List String → Result GetAllError (Map V)
  read_keys found [] = ok found
  read_keys found (k ∷ ks) = elim (fetch k) [
    | none ↦ err hgetall_error
    | some v ↦ read_keys (insert k v found) ks
  ]

  -- the outer loop; the outer `none` means that the fuel ran out
  unfoldable pub get_all_from : ℕ → ℕ → Map V → Option (Result GetAllError (Map V))
  get_all_from zero iter found = none
  get_all_from (suc fuel) iter found = elim (scan iter) [
    | err e ↦ some (err e)
    | ok (next, keys) ↦ elim (read_keys found keys) [
      | err e ↦ some (err e)
      | ok found' ↦ elim (nat_eq next 0) [
        | true ↦ some (ok found')
        | false ↦ get_all_from fuel next found'
      ]
    ]
  ]

  unfoldable pub get_all : ℕ → Option (Result GetAllError (Map V))
  unfolding get_all_from read_keys
  get_all fuel = get_all_from fuel 0 []

  -- A scan from a cursor comes back to 0 after `n` replies, which hold `keys`.
  pub data Pages : ℕ → ℕ → List String → Type 0 where
    last : {cursor : ℕ} {keys : List String} → scan cursor ≡ ok (0, keys) → Pages cursor 1 keys
    more :
        {cursor next n : ℕ} {here rest keys : List String}
        → scan cursor ≡ ok (next, here)
        → next ≢ 0
        → Pages next n rest
        → keys ≡ here ++ rest
        → Pages cursor (suc n) keys

  abbrev and_then : Result GetAllError (Map V) → List String → Result GetAllError (Map V)
  and_then (ok found) ls = read_keys found ls
  and_then (err e) ls = err e

  read_keys-append :
      (found : Map V) (ks ls : List String)
      → read_keys found (ks ++ ls) ≡ and_then (read_keys found ks) ls
  unfolding read_keys
  read_keys-append found [] ls = refl
  read_keys-append found (k ∷ ks) ls =
      go (fetch k) refl (λ v. read_keys-append (insert k v found) ks ls)
    where
      go :
          (o : Option V)
          → fetch k ≡ o
          → ((v : V)
              → read_keys (insert k v found) (ks ++ ls)
                ≡ and_then (read_keys (insert k v found) ks) ls)
          → read_keys found (k ∷ ks ++ ls) ≡ and_then (read_keys found (k ∷ ks)) ls
      go none e ih = rw (e, read_keys)
      go (some v) e ih = rw (e, read_keys) (ih v)

  get_all_from-Pages :
      (fuel : ℕ) (cursor n : ℕ) (found : Map V) (keys : List String)
      → Pages cursor n keys
      → n ≤ fuel
      → get_all_from fuel cursor found ≡ some (read_keys found keys)
  unfolding get_all_from
  get_all_from-Pages zero cursor n found keys (last e) h = absurd (omega arith)
  get_all_from-Pages zero cursor n found keys (more e ne p q) h = absurd (omega arith)
  get_all_from-Pages (suc fuel) cursor n found keys (last e) h = ground arith
  get_all_from-Pages (suc fuel) cursor n found keys
        (more {next = next} {here = here} {rest = rest} e ne p q) h =
      go (read_keys found here) refl (λ f. get_all_from-Pages fuel next _ f rest p (omega arith))
    where
      go :
          (r : Result GetAllError (Map V))
          → read_keys found here ≡ r
          → ((f : Map V) → get_all_from fuel next f ≡ some (read_keys f rest))
          → get_all_from (suc fuel) cursor found ≡ some (read_keys found keys)
      go (ok f) x ih = ground (arith, q, read_keys-append found here rest, ih f)
      go (err x') x ih = ground (arith, q, read_keys-append found here rest)

  -- What reading some keys gives, on top of what was found before.
  Found : Map V → List String → Result GetAllError (Map V) → Type 0
  Found found ks (ok found') =
      ((k : String) → lookup k found' ≡ (if contains ks k then fetch k else lookup k found))
      × All (λ k. is_some (fetch k) ≡ true) ks
  Found found ks (err e) =
      (e ≡ hgetall_error) × ((k : String) × (contains ks k ≡ true) × (fetch k ≡ none))

  Found-cons :
      (found : Map V) (k : String) (v : V) (ks : List String) (r : Result GetAllError (Map V))
      → fetch k ≡ some v
      → Found (insert k v found) ks r
      → Found found (k ∷ ks) r
  unfolding Found contains
  Found-cons found k v ks (ok found') e h =
      (λ j. ground (arith, h.0 j, e, lookup-insert k j v found, eq_iff k j), (rw e, h.1))
  Found-cons found k v ks (err x) e (h, (j, c, f)) = (h, (j, ground (arith, c), f))

  read_keys-Found : (found : Map V) (ks : List String) → Found found ks (read_keys found ks)
  unfolding read_keys contains
  read_keys-Found found [] = unfold Found in (λ k. refl, tt)
  read_keys-Found found (k ∷ ks) = go (fetch k) refl (λ v. read_keys-Found (insert k v found) ks)
    where
      go :
          (o : Option V)
          → fetch k ≡ o
          → ((v : V) → Found (insert k v found) ks (read_keys (insert k v found) ks))
          → Found found (k ∷ ks) (read_keys found (k ∷ ks))
      go none e ih = rw (e, read_keys) (unfold Found in (refl, (k, rw (==_refl k), e)))
      go (some v) e ih = rw (e, read_keys) (Found-cons found k v ks _ e (ih v))

  -- Either every key was fetched, and the result has what was fetched at just those keys, or the
  -- fetch of some key failed, and the result is that error.
  abbrev pub AllOrNothing : List String → Option (Result GetAllError (Map V)) → Type 0
  AllOrNothing keys r =
      ((found : Map V) × (r ≡ some (ok found))
        × ((k : String) → lookup k found ≡ (if contains keys k then fetch k else none))
        × All (λ k. is_some (fetch k) ≡ true) keys)
      ⊎ ((k : String) × (r ≡ some (err hgetall_error))
          × (contains keys k ≡ true)
          × (fetch k ≡ none))

  -- If the scan from cursor 0 comes back to 0 within the fuel, `GetAll` returns, all or nothing: either
  -- every scanned key was fetched, and it returns what was fetched at just those keys, or the fetch of
  -- some scanned key failed, and it returns that error.
  pub get_all-AllOrNothing :
      (fuel n : ℕ) (keys : List String)
      → Pages 0 n keys
      → n ≤ fuel
      → AllOrNothing keys (get_all fuel)
  unfolding get_all Found
  get_all-AllOrNothing fuel n keys p h =
      go (read_keys [] keys) (get_all_from-Pages fuel 0 n [] keys p h) (read_keys-Found [] keys)
    where
      go :
          (r : Result GetAllError (Map V))
          → get_all fuel ≡ some r
          → Found [] keys r
          → AllOrNothing keys (get_all fuel)
      go (ok found) e f = inl (found, e, (λ k. ground (arith, f.0 k, lookup-nil {V = V} k)), f.1)
      go (err x) e f = inr (f.1.0, ground (arith, e, f.0), f.1.1, f.1.2)
