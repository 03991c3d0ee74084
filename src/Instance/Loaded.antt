-- ===== src/Instance/Loaded.antt =====
-- What one load of the registration changes.
use locate.Prelude.{
  ◌≡◌, refl, Bool, true, false, Option, none, some, Result, ok, err, if◌then◌else◌,
}
use locate.Prelude.Maps.{Map}
use locate.Host.{HostPackage}
use locate.Api.{Registration}
use locate.Instance.Loading.{Loader, LoadError, announced, update, find, found, get_registration}

module _ (H : HostPackage) (equal : Registration → Registration → Bool) where
  -- The loader and what is announced, after a load.
  abbrev pub Loads : Loader H → Loader H × Result LoadError (Option Registration) → Type 0
  Loads loader (loader', ok (some reg)) =
      (v : Registration) × (v.hostname ≡ H.string_with_service loader.hostname)
      × (loader' ≡ record loader { reg = v })
      × (reg ≡ announced H loader v)
  Loads loader (loader', ok none) =
      (loader' ≡ loader)
      × (v : Registration) × (v.hostname ≡ H.string_with_service loader.hostname)
      × (equal loader.reg v ≡ true)
  Loads loader (loader', err e) = loader' ≡ loader

  found-Loads :
      (loader : Loader H) (o : Option Registration) → Loads loader (found H equal loader o)
  unfolding found update
  found-Loads loader none = refl
  found-Loads loader (some v) = go (equal loader.reg named) refl
    where
      named : Registration
      named = record v { hostname = H.string_with_service loader.hostname }

      go :
          (b : Bool)
          → equal loader.reg named ≡ b
          → Loads loader (
              if b
              then (loader, ok none)
              else (record loader { reg = named }, ok (some (announced H loader named))))
      go true e = (refl, named, refl, e)
      go false e = (named, refl, refl, refl)

  pub get_registration-Loads :
      (got : Result LoadError (Map Registration)) (loader : Loader H)
      → Loads loader (get_registration H equal got loader)
  unfolding get_registration
  get_registration-Loads (err e) loader = refl
  get_registration-Loads (ok registrations) loader =
      found-Loads loader (find H loader registrations)
