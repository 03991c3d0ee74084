-- ===== src/Location/Pick/Spec.antt =====
-- What `pickTargets` returns, whatever is drawn.
use mathlib.Core.List.{Permᴰ}
use mathlib.Core.List.Permᴰ
use locate.Prelude.{
  ℕ, zero, suc, ◌<◌, ◌≤◌, ◌%◌, min, String, ◌≡◌, refl, ap, ◌∙◌, Option, none, some, List, [], ◌∷◌,
  ◌++◌, map, arith, length, get_elem?, erase_idx, All, get_elem?-lt, length-erase_idx,
  All-erase_idx, All-get_elem?,
}
use locate.Prelude.Maps.{Map, insert}
use locate.Prelude.Perm.{erase_idx-perm}
use locate.Url.{Url, UrlPackage}
use locate.Location.Types.{Machine, Site}
use locate.Location.Pick.{
  Draws, TargetInfo, checked_mod, target_of, first_urls, pick_from, pick_targets,
}

pub record Picked : Type 0 where
  pub site : Site
  pub index : ℕ  -- of the machine
  pub machine : Machine

-- The machine is one of its site.
abbrev pub IsOfSite : Picked → Type 0
IsOfSite p = get_elem? p.site.machines p.index ≡ some p.machine

abbrev pub HasMachine : Site → Type 0
HasMachine s = 0 < length s.machines

-- The ranks that the rounds leave.
unfoldable pub ranks_of : Map ℕ → List Picked → Map ℕ
ranks_of ranks [] = ranks
ranks_of ranks (p ∷ ps) = ranks_of (insert p.machine.name p.site.metro_rank ranks) ps

module _ (U : UrlPackage) (draws : Draws) (service : String) where
  -- The URLs are those of the first site that was picked.
  unfoldable pub urls_of : Option (List Url) → List Picked → Option (List Url)
  urls_of urls [] = urls
  urls_of urls (p ∷ ps) = some (first_urls U draws service urls p.site.registration)

  urls_of-some : (urls : List Url) (ps : List Picked) → urls_of (some urls) ps ≡ some urls
  unfolding urls_of first_urls
  urls_of-some urls [] = refl
  urls_of-some urls (p ∷ ps) = refl

  -- The picks behind a result: a machine of each of `n` different sites, in order.
  pub record IsPick (n : ℕ) (sites : List Site) (ranks : Map ℕ) (urls : Option (List Url))
      (info : TargetInfo) : Type 0 where
    pub picks : List Picked
    pub rest : List Site
    pub enough : length picks ≡ n
    pub different : Permᴰ (map (λ p. p.site) picks ++ rest) sites
    pub of_site : All IsOfSite picks
    pub targets_of : info.targets ≡ map (λ p. target_of p.site p.machine) picks
    pub ranks_lem : info.ranks ≡ ranks_of ranks picks
    pub urls_lem : info.urls ≡ urls_of urls picks

  module _ (in_range : (i n : ℕ) → 0 < n → draws.random_int i n < n) where
    checked_mod-lt : (x n : ℕ) → 0 < n → (i : ℕ) × (checked_mod x n ≡ some i) × (i < n)
    unfolding checked_mod
    checked_mod-lt x zero h = elim h [ ]
    checked_mod-lt x (suc n) h = (x % suc n, refl, omega arith)

    pick_from-IsPick :
        (left i : ℕ) (sites : List Site) (ranks : Map ℕ) (urls : Option (List Url))
        → left ≤ length sites
        → All HasMachine sites
        → (info : TargetInfo) × (pick_from U draws service left i sites ranks urls ≡ some info)
          × IsPick left sites ranks urls info
    unfolding pick_from ranks_of urls_of
    pick_from-IsPick zero i sites ranks urls h m = (
      record { targets = []; urls = urls; ranks = ranks },
      refl,
      record {
        picks = [];
        rest = sites;
        enough = refl;
        different = Permᴰ.refl sites;
        of_site = tt;
        targets_of = refl;
        ranks_lem = refl;
        urls_lem = refl;
      },
    )
    pick_from-IsPick (suc left) i sites ranks urls h m =
        let (index, e₁, lt₁) = checked_mod-lt (draws.exp_int i) (length sites) (omega arith) in
        let (s, e₂) = get_elem?-lt sites index lt₁ in
        let j = draws.random_int i (length s.machines) in
        let (machine, e₃) =
          get_elem?-lt s.machines j
            (in_range i (length s.machines) (All-get_elem? HasMachine sites index m e₂)) in
        let (info, e₄, p) =
          pick_from-IsPick left (suc i) (erase_idx sites index)
            (insert machine.name s.metro_rank ranks)
            (some (first_urls U draws service urls s.registration))
            (omega (arith, length-erase_idx sites index lt₁))
            (All-erase_idx HasMachine sites index m) in
        (
          record info { targets = target_of s machine ∷ info.targets },
          rw (e₁, e₂, e₃, e₄),
          record {
            picks = record { site = s; index = j; machine = machine } ∷ p.picks;
            rest = p.rest;
            enough = ap suc p.enough;
            different = Permᴰ.trans (Permᴰ.cons refl p.different) (erase_idx-perm sites index s e₂);
            of_site = (e₃, p.of_site);
            targets_of = ap (◌∷◌ (target_of s machine)) p.targets_of;
            ranks_lem = p.ranks_lem;
            urls_lem = p.urls_lem ∙ urls_of-some _ p.picks;
          },
        )

    -- From sites that each have a machine, and with random indices in range, `pickTargets` does not
    -- panic, and returns 4 targets, or one for each site where there are fewer: a machine of each of
    -- so many different sites, with the rank of its metro, and the URLs of the first one's site.
    pub pick_targets-IsPick :
        (sites : List Site)
        → All HasMachine sites
        → (info : TargetInfo) × (pick_targets U draws service sites ≡ some info)
          × IsPick (min 4 (length sites)) sites [] none info
    unfolding pick_targets
    pick_targets-IsPick sites m =
        pick_from-IsPick (min 4 (length sites)) 0 sites [] none (omega arith) m
