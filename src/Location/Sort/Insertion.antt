-- ===== src/Location/Sort/Insertion.antt =====
-- A sort that keeps what `sort.Slice` promises.
use mathlib.Core.List.{Permᴰ}
use mathlib.Core.List.Permᴰ
use locate.Prelude.{
  ◌≡◌, refl, Bool, false, inl, inr, List, [], ◌∷◌, if◌then◌else◌, Bool-cases, All, All-map,
  All-both,
}
use locate.Prelude.Perm.{Pairs, All-perm}
use locate.Location.Sort.{StrictWeakOn, SortSlice}

module _ {A : Type 0} (less : A → A → Bool) where
  insert_by : A → List A → List A
  insert_by x [] = x ∷ []
  insert_by x (y ∷ ys) = let rest = insert_by x ys in if less y x then y ∷ rest else x ∷ y ∷ ys

  pub insertion_sort : List A → List A
  unfolding insert_by
  insertion_sort [] = []
  insertion_sort (x ∷ xs) = insert_by x (insertion_sort xs)

  insert_by-perm : (x : A) (l : List A) → Permᴰ (x ∷ l) (insert_by x l)
  unfolding insert_by
  insert_by-perm x [] = Permᴰ.refl (x ∷ [])
  insert_by-perm x (y ∷ ys) = elim (Bool-cases (less y x)) [
    | inl p ↦ rw p (Permᴰ.trans (Permᴰ.swap refl refl) (Permᴰ.cons refl (insert_by-perm x ys)))
    | inr p ↦ rw p (Permᴰ.refl (x ∷ y ∷ ys))
  ]

  pub insertion_sort-perm : (l : List A) → Permᴰ l (insertion_sort l)
  unfolding insertion_sort
  insertion_sort-perm [] = Permᴰ.nil
  insertion_sort-perm (x ∷ xs) =
      Permᴰ.trans (Permᴰ.cons refl (insertion_sort-perm xs)) (insert_by-perm x (insertion_sort xs))

  abbrev pub NotAbove : A → A → Type 0
  NotAbove a b = less b a ≡ false

  module _ (P : A → Type 0) (w : StrictWeakOn P less) where
    below-All :
        (x y : A) (ys : List A)
        → P x
        → P y
        → less y x ≡ false
        → All P ys
        → All (NotAbove y) ys
        → All (NotAbove x) ys
    below-All x y ys px py h ps below =
        All-map _ _ ys (λ z q. w.not_less_trans x y z px py q.0 h q.1) (All-both _ _ ys ps below)

    insert_by-Sorted :
        (x : A) (l : List A) → P x → All P l → Pairs NotAbove l → Pairs NotAbove (insert_by x l)
    unfolding insert_by
    insert_by-Sorted x [] px ps s = (tt, tt)
    insert_by-Sorted x (y ∷ ys) px ps s = elim (Bool-cases (less y x)) [
      | inl p ↦ rw p (
        All-perm (NotAbove y) (insert_by-perm x ys) (w.asymm y x ps.0 px p, s.0),
        insert_by-Sorted x ys px ps.1 s.1,
      )
      | inr p ↦ rw p ((p, below-All x y ys px ps.0 p ps.1 s.0), s)
    ]

    pub insertion_sort-Sorted : (l : List A) → All P l → Pairs NotAbove (insertion_sort l)
    unfolding insertion_sort
    insertion_sort-Sorted [] ps = tt
    insertion_sort-Sorted (x ∷ xs) ps =
        insert_by-Sorted x (insertion_sort xs) ps.0 (All-perm P (insertion_sort-perm xs) ps.1)
          (insertion_sort-Sorted xs ps.1)

unfoldable pub insertion : SortSlice
unfolding insertion_sort
insertion = record {
  slice = insertion_sort;
  slice-perm = insertion_sort-perm;
  slice-sorted = λ P less l w. insertion_sort-Sorted less P w l;
}
