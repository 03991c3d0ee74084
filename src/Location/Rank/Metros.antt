-- ===== src/Location/Rank/Metros.antt =====
-- `rank` against the list of the metros in the order of their first site.
use locate.Prelude.{
  ℕ, zero, suc, String, ◌≡◌, refl, sym, ap, ◌∙◌, Option, none, some, List, [], ◌∷◌, ◌++◌, arith,
  length-append, ◌==◌, eq_iff, if◌then◌else◌, length, ==_refl,
}
use locate.Prelude.Maps.{Map, lookup, insert, lookup-insert, lookup-nil}
use locate.Location.Types.{Site}
use mathlib.Core.Path.{ap₂}
use locate.Location.Rank.{or_zero, note_metro, rank_from, rank}

abbrev next : Option ℕ → Option ℕ
next none = none
next (some i) = some (suc i)

-- The index of a text in a list.
unfoldable pub position : String → List String → Option ℕ
position k [] = none
position k (j ∷ js) = if j == k then some 0 else next (position k js)

abbrev pub note : List String → String → Option ℕ → List String
note seen metro none = seen ++ metro ∷ []
note seen metro (some _) = seen

-- The metros of some sites, each once, in order, after those already seen.
unfoldable pub metros_from : List String → List Site → List String
unfolding position
metros_from seen [] = seen
metros_from seen (s ∷ ss) =
    metros_from (note seen s.registration.metro (position s.registration.metro seen)) ss

-- Sites numbered from `i` on, their metros by the positions in a list.
unfoldable pub ranked : ℕ → List String → List Site → List Site
unfolding position
ranked i metros [] = []
ranked i metros (s ∷ ss) =
    record s { rank = i; metro_rank = or_zero (position s.registration.metro metros) }
    ∷ ranked (suc i) metros ss

position-append :
    (k : String) (js ks : List String) (i : ℕ)
    → position k js ≡ some i
    → position k (js ++ ks) ≡ some i
unfolding position
position-append k [] ks i h = cc
position-append k (j ∷ js) ks zero h = ground arith
position-append k (j ∷ js) ks (suc i) h = ground (arith, position-append k js ks i)

position-snoc :
    (k j : String) (js : List String)
    → position k js ≡ none
    → position k (js ++ j ∷ []) ≡ (if j == k then some (length js) else none)
unfolding position
position-snoc k j [] h = refl
position-snoc k j (x ∷ js) h = ground (arith, position-snoc k j js)

position-note :
    (k metro : String) (seen : List String) (i : ℕ)
    → position k seen ≡ some i
    → position k (note seen metro (position metro seen)) ≡ some i
position-note k metro seen i h = go (position metro seen)
  where
    go : (o : Option ℕ) → position k (note seen metro o) ≡ some i
    go none = position-append k seen (metro ∷ []) i h
    go (some _) = h

pub position-metros_from :
    (k : String) (seen : List String) (ss : List Site) (i : ℕ)
    → position k seen ≡ some i
    → position k (metros_from seen ss) ≡ some i
unfolding metros_from
position-metros_from k seen [] i h = h
position-metros_from k seen (s ∷ ss) i h =
    position-metros_from k (note seen s.registration.metro (position s.registration.metro seen)) ss
      i (position-note k s.registration.metro seen i h)

-- The map of the loop has the positions in the list of what it has seen.
record Tracks (metro_rank : ℕ) (metros : Map ℕ) (seen : List String) : Type 0 where
  counted : metro_rank ≡ length seen
  placed : (k : String) → lookup k metros ≡ position k seen

placed-snoc :
    (n : ℕ) (metros : Map ℕ) (seen : List String) (metro k : String)
    → position metro seen ≡ none
    → Tracks n metros seen
    → (o : Option ℕ) → position k seen ≡ o
    → lookup k (insert metro n metros) ≡ position k (seen ++ metro ∷ [])
placed-snoc n metros seen metro k e t none x = ground (
  arith,
  lookup-insert metro k n metros,
  eq_iff metro k,
  position-snoc k metro seen x,
  t.placed k,
  t.counted,
)
placed-snoc n metros seen metro k e t (some i) x = ground (
  arith,
  lookup-insert metro k n metros,
  eq_iff metro k,
  position-append k seen (metro ∷ []) i x,
  t.placed k,
)

note-Tracks :
    (n : ℕ) (metros : Map ℕ) (seen : List String) (metro : String) (o : Option ℕ)
    → position metro seen ≡ o
    → Tracks n metros seen
    → Tracks (note_metro metro n metros o).0 (note_metro metro n metros o).1 (note seen metro o)
unfolding note_metro
note-Tracks n metros seen metro none e t = record {
  counted = omega (arith, length-append seen (metro ∷ []), t.counted);
  placed = λ k. placed-snoc n metros seen metro k e t (position k seen) refl;
}
note-Tracks n metros seen metro (some i) e t = t

pub note-placed :
    (metro : String) (seen : List String)
    → (i : ℕ) × (position metro (note seen metro (position metro seen)) ≡ some i)
note-placed metro seen = go (position metro seen) refl
  where
    go :
        (o : Option ℕ)
        → position metro seen ≡ o
        → (i : ℕ) × (position metro (note seen metro o) ≡ some i)
    go none e = (length seen, rw (position-snoc metro metro seen e, ==_refl))
    go (some i) e = (i, e)

rank_from-ranked :
    (i n : ℕ) (metros : Map ℕ) (seen : List String) (ss : List Site)
    → Tracks n metros seen
    → rank_from i n metros ss ≡ ranked i (metros_from seen ss) ss
unfolding rank_from ranked metros_from
rank_from-ranked i n metros seen [] t = refl
rank_from-ranked i n metros seen (s ∷ ss) t =
    let m = s.registration.metro in
    let o = lookup m metros in
    let seen' = note seen m (position m seen) in
    let t' : Tracks (note_metro m n metros o).0 (note_metro m n metros o).1 seen' =
      rw (t.placed m) (note-Tracks n metros seen m (position m seen) refl t) in
    let (j, here) = note-placed m seen in
    ap₂ ◌∷◌
      (ap (λ r. record s { rank = i; metro_rank = or_zero r })
        (t'.placed m ∙ here ∙ sym (position-metros_from m seen' ss j here)))
      (rank_from-ranked (suc i) _ _ seen' ss t')

-- `rank` gives each site its index, and as the rank of its metro the index of the metro in the list
-- of the sites' metros without repetition; it changes nothing else.
pub rank-ranked : (sites : List Site) → rank sites ≡ ranked 0 (metros_from [] sites) sites
unfolding rank position
rank-ranked sites =
    rank_from-ranked 0 0 [] [] sites (record { counted = refl; placed = λ k. lookup-nil k })
