-- ===== src/Location/Sort.antt =====
-- `sortSites`. `sort.Slice` promises a rearrangement, in order where `less` is a strict weak order,
-- and no more: it is not stable. So it is an interface here, and `Sort/Insertion` fills it.
pub mod Insertion
use mathlib.Core.List.{Permᴰ}
use locate.Prelude.{◌≡◌, Bool, true, false, List, All, All-map}
use locate.Prelude.Perm.{Pairs, All-perm}
use locate.Float.{Float64, is_nan, lt}
use locate.Float.Order.{lt_asymm, not_lt_trans}
use locate.Location.Types.{Site}

-- A strict weak order on the values that satisfy `P`.
pub record StrictWeakOn {A : Type 0} (P : A → Type 0) (less : A → A → Bool) : Type 0 where
  pub asymm : (a b : A) → P a → P b → less a b ≡ true → less b a ≡ false
  pub not_less_trans :
      (a b c : A) → P a → P b → P c → less b a ≡ false → less c b ≡ false → less c a ≡ false

-- `sort.Slice`
pub record SortSlice : Type 1 where
  pub slice : {A : Type 0} → (A → A → Bool) → List A → List A
  pub slice-perm : {A : Type 0} (less : A → A → Bool) (l : List A) → Permᴰ l (slice less l)
  pub slice-sorted :
      {A : Type 0} (P : A → Type 0) (less : A → A → Bool) (l : List A)
      → StrictWeakOn P less
      → All P l
      → Pairs (λ a b. less b a ≡ false) (slice less l)

abbrev pub closer : Site → Site → Bool
closer s t = lt s.distance t.distance

abbrev pub IsMeasured : Site → Type 0
IsMeasured s = is_nan s.distance ≡ false

-- No site stands before one that is closer.
abbrev pub IsSorted : List Site → Type 0
IsSorted = Pairs (λ s t. lt t.distance s.distance ≡ false)

closer-StrictWeakOn : StrictWeakOn IsMeasured closer
closer-StrictWeakOn = record {
  asymm = λ a b _ _. lt_asymm a.distance b.distance;
  not_less_trans = λ a b c. not_lt_trans a.distance b.distance c.distance;
}

module _ (S : SortSlice) where
  unfoldable pub sort_sites : List Site → List Site
  sort_sites sites = S.slice closer sites

  pub sort_sites-perm : (sites : List Site) → Permᴰ sites (sort_sites sites)
  unfolding sort_sites
  sort_sites-perm sites = S.slice-perm closer sites

  -- Sites none of whose distances is a NaN come back in ascending order of distance.
  pub sort_sites-IsSorted : (sites : List Site) → All IsMeasured sites → IsSorted (sort_sites sites)
  unfolding sort_sites
  sort_sites-IsSorted sites h = S.slice-sorted IsMeasured closer sites closer-StrictWeakOn h
