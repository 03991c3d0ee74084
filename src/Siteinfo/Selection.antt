-- ===== src/Siteinfo/Selection.antt =====
-- Which machines are returned.
use locate.Prelude.{
  String, ◌≡◌, refl, ap, ◌∙◌, sym, ◌⊎◌, inl, inr, Bool, true, false, ◌&&◌, ◌||◌, Option, none, some,
  [], ◌∷◌, arith, ◌==◌, ◌!=◌, eq_iff, ==_refl, if◌then◌else◌, Result, ok, err,
}
use locate.Prelude.Maps.{Map, lookup, insert, keys, contains, lookup-insert, lookup-nil}
use locate.Prelude.Keyed.{DistinctKeys, lookup-contains}
use locate.Api.{HeartbeatMessage}
use locate.Host.{HostPackage}
use locate.Siteinfo.{keep, select, machines}

module _ (H : HostPackage) (org exp : String) where
  open H use {Name, parse}

  -- A machine is asked for if it is of the organisation, where one is given, and of the experiment,
  -- where one is given.
  abbrev pub wanted : Option Name → Bool
  wanted none = org == "" && exp == ""
  wanted (some parts) = (org == "" || org == H.org parts) && (exp == "" || exp == H.service parts)

  abbrev restrict : Bool → Option HeartbeatMessage → Option HeartbeatMessage
  restrict b none = none
  restrict b (some v) = if b then some v else none

  keep-wanted :
      (parts : Name) → (org != "" || exp != "") ≡ true → keep H org exp parts ≡ wanted (some parts)
  unfolding keep
  keep-wanted parts given = ground arith

  -- What the loop makes of the messages, on top of what it has.
  Selected :
      Map HeartbeatMessage → Map HeartbeatMessage → Result String (Map HeartbeatMessage) → Type 0
  Selected found msgs (err k) = (contains (keys msgs) k ≡ true) × (parse k ≡ none)
  Selected found msgs (ok found') =
      (j : String)
      → lookup j found' ≡ (
          if contains (keys msgs) j
          then (if wanted (parse j) then lookup j msgs else lookup j found)
          else lookup j found)

  -- One entry, where its host name parses.
  Selected-cons :
      (found : Map HeartbeatMessage) (k : String) (v : HeartbeatMessage)
      (msgs : Map HeartbeatMessage) (r : Result String (Map HeartbeatMessage)) (b : Bool)
      → b ≡ wanted (parse k)
      → contains (keys msgs) k ≡ false
      → Selected (if b then insert k v found else found) msgs r
      → Selected found ((k, v) ∷ msgs) r
  unfolding Selected contains keys lookup
  Selected-cons found k v msgs (err x) b e d (c, h) = (ground (arith, c), h)
  Selected-cons found k v msgs (ok found') b e d h =
      λ j. go j (k == j) (eq_iff k j).0 (entry j) (h j)
    where
      entry :
          (j : String)
          → lookup j (if b then insert k v found else found)
            ≡ (if b && k == j then some v else lookup j found)
      entry j = ground (arith, lookup-insert k j v found)

      go :
          (j : String) (same : Bool)
          → (same ≡ true → k ≡ j)
          → lookup j (if b then insert k v found else found)
            ≡ (if b && same then some v else lookup j found)
          → lookup j found' ≡ (
              if contains (keys msgs) j
              then (if wanted (parse j)
                  then lookup j msgs
                  else lookup j (if b then insert k v found else found))
              else lookup j (if b then insert k v found else found))
          → lookup j found' ≡ (
              if same || contains (keys msgs) j
              then (if wanted (parse j)
                  then (if same then some v else lookup j msgs)
                  else lookup j found)
              else lookup j found)
      go j true s n h = ground (
        arith,
        h,
        n,
        ap (contains (keys msgs)) (sym (s refl)) ∙ d,
        e ∙ ap (λ i. wanted (parse i)) (s refl),
      )
      go j false s n h = ground (arith, h, n)

  select-Selected :
      (found msgs : Map HeartbeatMessage)
      → (org != "" || exp != "") ≡ true
      → DistinctKeys msgs
      → Selected found msgs (select H org exp found msgs)
  unfolding Selected select contains keys lookup
  select-Selected found [] given d = λ j. refl
  select-Selected found ((k, v) ∷ msgs) given (d, ds) =
      go (parse k) refl (λ f. select-Selected f msgs given ds)
    where
      go :
          (o : Option Name)
          → parse k ≡ o
          → ((f : Map HeartbeatMessage) → Selected f msgs (select H org exp f msgs))
          → Selected found ((k, v) ∷ msgs) (select H org exp found ((k, v) ∷ msgs))
      go none e ih = rw (e, select, Selected) (rw (==_refl k) refl, e)
      go (some parts) e ih =
          rw (e, select)
            (Selected-cons found k v msgs
              (select H org exp (if keep H org exp parts then insert k v found else found) msgs)
              (keep H org exp parts) (keep-wanted parts given ∙ ap wanted (sym e)) d
              (ih (if keep H org exp parts then insert k v found else found)))

  abbrev pub Outcome : Map HeartbeatMessage → Result String (Map HeartbeatMessage) → Type 0
  Outcome msgs r =
      ((k : String) × (r ≡ err k) × (contains (keys msgs) k ≡ true) × (parse k ≡ none))
      ⊎ ((found : Map HeartbeatMessage) × (r ≡ ok found)
          × ((j : String) → lookup j found ≡ restrict (wanted (parse j)) (lookup j msgs)))

  -- If an organisation or an experiment is given and a host name does not parse, `Machines` fails with
  -- such a host name. Otherwise it returns exactly the instances that are asked for.
  pub machines-wanted :
      (msgs : Map HeartbeatMessage) → DistinctKeys msgs → Outcome msgs (machines H org exp msgs)
  unfolding machines Selected
  machines-wanted msgs d =
      go (org != "" || exp != "") refl (λ given. select-Selected [] msgs given d)
    where
      chosen :
          (j : String) (o : Option HeartbeatMessage)
          → lookup j msgs ≡ o
          → (if contains (keys msgs) j
              then (if wanted (parse j) then lookup j msgs else lookup j [])
              else lookup j [])
            ≡ restrict (wanted (parse j)) (lookup j msgs)
      chosen j none e = ground (arith, e, lookup-nil {V = HeartbeatMessage} j)
      chosen j (some v) e =
          ground (arith, e, lookup-contains j v msgs e, lookup-nil {V = HeartbeatMessage} j)

      all_wanted :
          (org != "" || exp != "") ≡ false
          → (o : Option HeartbeatMessage) (n : Option Name) → o ≡ restrict (wanted n) o
      all_wanted e none n = refl
      all_wanted e (some v) none = ground arith
      all_wanted e (some v) (some parts) = ground arith

      from : (r : Result String (Map HeartbeatMessage)) → Selected [] msgs r → Outcome msgs r
      from (err k) h = inl (k, refl, h.0, h.1)
      from (ok found) h = inr (found, refl, λ j. h j ∙ chosen j (lookup j msgs) refl)

      go :
          (b : Bool)
          → (org != "" || exp != "") ≡ b
          → (b ≡ true → Selected [] msgs (select H org exp [] msgs))
          → Outcome msgs (if b then select H org exp [] msgs else ok msgs)
      go true e h = from (select H org exp [] msgs) (h refl)
      go false e h = inr (msgs, refl, λ j. all_wanted e (lookup j msgs) (parse j))
