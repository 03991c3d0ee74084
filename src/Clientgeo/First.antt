-- ===== src/Clientgeo/First.antt =====
-- The first locator that knows decides.
use locate.Prelude.{◌≡◌, refl, ap, ◌∙◌, ◌↔◌, List, [], ◌∷◌, ◌++◌, Result, ok, err, All}
use locate.Clientgeo.{Location, or_more, multi_locate}

module _ {Request : Type 0} {E : Type 0} (req : Request) where
  -- The locators before it fail, and it returns the location.
  pub record IsFirst (locators : List (Request → Result E Location)) (l : Location) : Type 0 where
    pub before : List (Request → Result E Location)
    pub locator : Request → Result E Location
    pub after : List (Request → Result E Location)
    pub order : locators ≡ before ++ locator ∷ after
    pub fail : All (λ f. (e : E) × (f req ≡ err e)) before
    pub locates : locator req ≡ ok l

  multi_locate_only_if :
      (locators : List (Request → Result E Location)) (l : Location)
      → multi_locate locators req ≡ ok l
      → IsFirst locators l
  unfolding multi_locate
  multi_locate_only_if [] l h = cc
  multi_locate_only_if (f ∷ fs) l h = go (f req) refl (multi_locate_only_if fs l) h
    where
      go :
          (r : Result E Location)
          → f req ≡ r
          → (multi_locate fs req ≡ ok l → IsFirst fs l)
          → (elim r as (λ _. Result (List E) Location) [
            | ok l' ↦ ok l'
            | err e ↦ or_more e (multi_locate fs req)
          ])
            ≡ ok l
          → IsFirst (f ∷ fs) l
      go (ok l') e ih h = record {
        before = [];
        locator = f;
        after = fs;
        order = refl;
        fail = tt;
        locates = e ∙ ap ok (cc h);
      }
      go (err x) e ih h = rest (multi_locate fs req) refl h
        where
          rest :
              (o : Result (List E) Location)
              → multi_locate fs req ≡ o
              → or_more x o ≡ ok l
              → IsFirst (f ∷ fs) l
          rest (err es) p h = cc
          rest (ok l') p h =
              let first = ih (p ∙ h) in
              record {
                before = f ∷ first.before;
                locator = first.locator;
                after = first.after;
                order = ap (λ ls. f ∷ ls) first.order;
                fail = ((x, e), first.fail);
                locates = first.locates;
              }

  multi_locate_if :
      (before : List (Request → Result E Location)) (f : Request → Result E Location)
      (after : List (Request → Result E Location)) (l : Location)
      → All (λ g. (e : E) × (g req ≡ err e)) before
      → f req ≡ ok l
      → multi_locate (before ++ f ∷ after) req ≡ ok l
  unfolding multi_locate
  multi_locate_if [] f after l fail e = rw e refl
  multi_locate_if (g ∷ before) f after l ((x, e), fail) e' =
      rw e (rw (multi_locate_if before f after l fail e') refl)

  -- The list of locators returns a location exactly when some locator returns it and all locators
  -- before that one fail.
  pub multi_locate-IsFirst :
      (locators : List (Request → Result E Location)) (l : Location)
      → (multi_locate locators req ≡ ok l) ↔ IsFirst locators l
  multi_locate-IsFirst locators l = (
    multi_locate_only_if locators l,
    λ p.
        ap (λ ls. multi_locate ls req) p.order
        ∙ multi_locate_if p.before p.locator p.after l p.fail p.locates,
  )
