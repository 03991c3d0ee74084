-- ===== src/Clientgeo/Maxmind/Reloads.antt =====
-- The database of the Maxmind locator over any sequence of reloads.
use locate.Prelude.{
  String, ◌≡◌, refl, sym, ◌∙◌, ap, ◌↔◌, ◌⊎◌, inl, inr, Option, none, some, List, [], ◌∷◌, ◌++◌, All,
  ◌>>=◌,
}
use locate.Clientgeo.Maxmind.{Download, archive, no_change, get_error, load, reload}

module _ {Archive Bytes Reader : Type 0} (from_tar_gz : Archive → String → Option Bytes)
    (from_bytes : Bytes → Option Reader) where
  -- `Reload` after each of the downloads, the first one first
  unfoldable pub reloads : Option Reader → List (Download Archive) → Option Reader
  reloads maxmind [] = maxmind
  reloads maxmind (got ∷ downloads) = reloads (reload from_tar_gz from_bytes maxmind got) downloads

  -- the database in a download, if there is one
  unfoldable pub opened : Download Archive → Option Reader
  opened (archive tgz) = from_tar_gz tgz "GeoLite2-City.mmdb" >>= from_bytes
  opened _ = none

  abbrev pub Fails : Download Archive → Type 0
  Fails got = opened got ≡ none

  -- The database that the last usable download holds, or the first one where none is usable.
  abbrev pub IsLatest : Option Reader → List (Download Archive) → Reader → Type 0
  IsLatest maxmind downloads reader =
      ((before : List (Download Archive)) × (got : Download Archive) × (after : List
          (Download Archive))
        × (downloads ≡ before ++ (got ∷ after))
        × (opened got ≡ some reader)
        × All Fails after)
      ⊎ ((maxmind ≡ some reader) × All Fails downloads)

  reload-opened :
      (maxmind : Option Reader) (got : Download Archive)
      → reload from_tar_gz from_bytes maxmind got
        ≡ (elim (opened got) [ none ↦ maxmind | some reader ↦ some reader ])
  unfolding reload load opened
  reload-opened maxmind no_change = refl
  reload-opened maxmind get_error = refl
  reload-opened maxmind (archive tgz) = go (from_tar_gz tgz "GeoLite2-City.mmdb" >>= from_bytes)
    where
      go :
          (o : Option Reader)
          → (elim (elim o as (λ _. Option (Option Reader)) [
            | none ↦ none
            | some mm ↦ some (some mm)
          ])
              as (λ _. Option Reader) [ none ↦ maxmind | some mm ↦ mm ])
            ≡ (elim o as (λ _. Option Reader) [ none ↦ maxmind | some reader ↦ some reader ])
      go none = refl
      go (some reader) = refl

  reloads-IsLatest_of :
      (downloads : List (Download Archive)) (maxmind : Option Reader) (reader : Reader)
      → reloads maxmind downloads ≡ some reader
      → IsLatest maxmind downloads reader
  unfolding reloads
  reloads-IsLatest_of [] maxmind reader h = inr (h, tt)
  reloads-IsLatest_of (got ∷ downloads) maxmind reader h =
      elim (reloads-IsLatest_of downloads (reload from_tar_gz from_bytes maxmind got) reader h) [
        | inl (before, last, after, e, o, f) ↦
            inl (got ∷ before, last, after, ap (λ ds. got ∷ ds) e, o, f)
        | inr (e, f) ↦ decide (opened got) refl (sym (reload-opened maxmind got) ∙ e) f
      ]
    where
      decide :
          (o : Option Reader)
          → opened got ≡ o
          → (elim (opened got) as (λ _. Option Reader) [ none ↦ maxmind | some r ↦ some r ])
            ≡ some reader
          → All Fails downloads
          → IsLatest maxmind (got ∷ downloads) reader
      decide none o e f = let e' : maxmind ≡ some reader = rw o at e in inr (e', (o, f))
      decide (some r) o e f =
          let e' : some r ≡ some reader = rw o at e in inl ([], got, downloads, refl, o ∙ e', f)

  reloads-Fails :
      (downloads : List (Download Archive)) (maxmind : Option Reader)
      → All Fails downloads
      → reloads maxmind downloads ≡ maxmind
  unfolding reloads
  reloads-Fails [] maxmind fails = refl
  reloads-Fails (got ∷ downloads) maxmind (f, fs) =
      reloads-Fails downloads (reload from_tar_gz from_bytes maxmind got) fs
      ∙ (reload-opened maxmind got ∙ rw f refl)

  reloads-append :
      (before after : List (Download Archive)) (maxmind : Option Reader)
      → reloads maxmind (before ++ after) ≡ reloads (reloads maxmind before) after
  unfolding reloads
  reloads-append [] after maxmind = refl
  reloads-append (got ∷ before) after maxmind =
      reloads-append before after (reload from_tar_gz from_bytes maxmind got)

  -- After any sequence of reloads the locator answers from the database of the last download that held
  -- one, however many downloads failed after it or brought no change, and from its first database where
  -- no download held one: a failing reload never loses the database.
  pub reloads-IsLatest :
      (maxmind : Option Reader) (downloads : List (Download Archive)) (reader : Reader)
      → (reloads maxmind downloads ≡ some reader) ↔ IsLatest maxmind downloads reader
  unfolding reloads
  reloads-IsLatest maxmind downloads reader = (reloads-IsLatest_of downloads maxmind reader, from)
    where
      from : IsLatest maxmind downloads reader → reloads maxmind downloads ≡ some reader
      from (inr (e, fails)) = reloads-Fails downloads maxmind fails ∙ e
      from (inl (before, got, after, e, o, fails)) = rw e (
          reloads-append before (got ∷ after) maxmind
          ∙ (reloads-Fails after _ fails
              ∙ (reload-opened (reloads maxmind before) got ∙ rw o refl)))
