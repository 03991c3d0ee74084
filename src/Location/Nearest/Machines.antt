-- ===== src/Location/Nearest/Machines.antt =====
-- The machines of the sites, from the filter to the pick.
use mathlib.Core.List.{Memᴰ}
use locate.Prelude.{
  ℕ, suc, ◌<◌, String, ◌≡◌, refl, ap, inl, inr, Option, none, some, List, [], ◌∷◌, ◌++◌, map, arith,
  ◌==◌, Bool-cases, length, All, All-map, All-get_elem?,
}
use mathlib.Core.Path.{subst}
use locate.Prelude.Maps.{Map}
use locate.Location.Types.{Machine, Site, Target}
use locate.Location.Filter.{Entry, new_site}
use locate.Location.Filter.Groups.{at_site, site_of}
use locate.Location.Rank.{rank_from, rank}
use locate.Location.Pick.{target_of}
use locate.Location.Pick.Spec.{Picked, IsOfSite}

-- The machine is that of one of the entries.
abbrev pub IsFrom : List Entry → Machine → Type 0
IsFrom es m = (e : Entry) × Memᴰ e es × (m ≡ e.machine)

-- There is a machine, and each is that of one of the entries.
abbrev pub AreFrom : List Entry → List Machine → Type 0
AreFrom es ms = (0 < length ms) × All (IsFrom es) ms

at_site-IsFrom :
    (name : String) (es : List Entry) → All (IsFrom es) (map (λ e. e.machine) (at_site name es))
unfolding at_site
at_site-IsFrom name [] = tt
at_site-IsFrom name (e ∷ es) =
    let rest =
      All-map _ (IsFrom (e ∷ es)) (map (λ x. x.machine) (at_site name es))
        (λ m h. (h.0, Memᴰ.tail h.1, h.2)) (at_site-IsFrom name es) in
    elim (Bool-cases (e.registration.site == name)) [
      | inl p ↦ rw p ((e, Memᴰ.head refl, refl), rest)
      | inr p ↦ rw p rest
    ]

site_of-from :
    (es fs : List Entry) (s : Site)
    → All (IsFrom es) (map (λ e. e.machine) fs)
    → site_of fs ≡ some s
    → AreFrom es s.machines
unfolding site_of new_site
site_of-from es [] s h e = cc
site_of-from es (f ∷ fs) s h e =
    subst (λ (o : Option Site). elim o [ none ↦ ⊥ | some x ↦ AreFrom es x.machines ]) e
      (omega arith, h)

-- A site that is the group of its name among some entries has their machines, and has one.
pub group-from :
    (es : List Entry) (name : String) (s : Site)
    → site_of (at_site name es) ≡ some s
    → AreFrom es s.machines
group-from es name s = site_of-from es (at_site name es) s (at_site-IsFrom name es)

-- `rank` leaves the machines alone.
module _ {κ} (Q : List Machine → Type κ) where
  rank_from-machines :
      (ss : List Site) (i n : ℕ) (metros : Map ℕ)
      → All (λ s. Q s.machines) ss
      → All (λ s. Q s.machines) (rank_from i n metros ss)
  unfolding rank_from
  rank_from-machines [] i n metros h = tt
  rank_from-machines (s ∷ ss) i n metros h = (h.0, rank_from-machines ss _ _ _ h.1)

  pub rank-machines :
      (ss : List Site) → All (λ s. Q s.machines) ss → All (λ s. Q s.machines) (rank ss)
  unfolding rank
  rank-machines ss h = rank_from-machines ss 0 0 [] h

pub length-rank : (ss : List Site) → length (rank ss) ≡ length ss
unfolding rank
length-rank ss = go ss 0 0 []
  where
    go : (ss : List Site) (i n : ℕ) (metros : Map ℕ) → length (rank_from i n metros ss) ≡ length ss
    go [] i n metros = refl
    go (s ∷ ss) i n metros = ap suc (go ss _ _ _)

-- The target is at the machine of one of the entries.
abbrev pub IsServedBy : List Entry → Target → Type 0
IsServedBy es t =
    (e : Entry) × Memᴰ e es × (t.machine ≡ e.machine.name) × (t.hostname ≡ e.machine.host)

pub picks-served :
    (es : List Entry) (picks : List Picked) (rest : List Site)
    → All IsOfSite picks
    → All (λ s. AreFrom es s.machines) (map (λ p. p.site) picks ++ rest)
    → All (IsServedBy es) (map (λ p. target_of p.site p.machine) picks)
unfolding target_of
picks-served es [] rest o h = tt
picks-served es (p ∷ ps) rest o h =
    let (e, mem, same) = All-get_elem? (IsFrom es) p.site.machines p.index h.0.1 o.0 in
    ((e, mem, ap (λ m. m.name) same, ap (λ m. m.host) same), picks-served es ps rest o.1 h.1)
