-- ===== src/Location/Rank/Apart.antt =====
-- `rank` tells metros apart.
use locate.Prelude.{
  ℕ, zero, suc, String, ◌≡◌, sym, ap, ◌∙◌, ◌↔◌, some, List, [], ◌∷◌, arith, eq_iff, All,
}
use locate.Prelude.Perm.{Pairs}
use locate.Location.Types.{Site}
use locate.Location.Rank.{or_zero, rank}
use locate.Location.Rank.Metros.{
  note, position, metros_from, ranked, note-placed, position-metros_from, rank-ranked,
}

position-injective :
    (j k : String) (ms : List String) (i : ℕ)
    → position j ms ≡ some i
    → position k ms ≡ some i
    → j ≡ k
unfolding position
position-injective j k [] i p q = cc
position-injective j k (m ∷ ms) zero p q = ground (arith, eq_iff m j, eq_iff m k)
position-injective j k (m ∷ ms) (suc i) p q =
    ground (arith, eq_iff m j, eq_iff m k, position-injective j k ms i)

abbrev metro : Site → String
metro s = s.registration.metro

abbrev IsPlaced : List String → Site → Type 0
IsPlaced ms s = (i : ℕ) × (position (metro s) ms ≡ some i)

metros_from-IsPlaced :
    (seen : List String) (ss : List Site) → All (IsPlaced (metros_from seen ss)) ss
unfolding metros_from
metros_from-IsPlaced seen [] = tt
metros_from-IsPlaced seen (s ∷ ss) =
    let seen' = note seen (metro s) (position (metro s) seen) in
    let (i, here) = note-placed (metro s) seen in
    ((i, position-metros_from (metro s) seen' ss i here), metros_from-IsPlaced seen' ss)

module _ (ms : List String) where
  ranked-apart :
      (s : Site) (x i : ℕ) (ss : List Site)
      → position (metro s) ms ≡ some x
      → All (IsPlaced ms) ss
      → All (λ t. (metro s ≡ metro t) ↔ (x ≡ t.metro_rank)) (ranked i ms ss)
  unfolding ranked
  ranked-apart s x i [] e h = tt
  ranked-apart s x i (t ∷ ts) e h =
      let (y, f) = h.0 in
      (
        (
          λ p. ground (arith, e, f, ap (λ k. position k ms) p),
          λ p. position-injective (metro s) (metro t) ms x e (f ∙ ap some (sym (p ∙ ap or_zero f))),
        ),
        ranked-apart s x (suc i) ts e h.1,
      )

  ranked-Pairs :
      (i : ℕ) (ss : List Site)
      → All (IsPlaced ms) ss
      → Pairs (λ s t. (metro s ≡ metro t) ↔ (s.metro_rank ≡ t.metro_rank)) (ranked i ms ss)
  unfolding ranked
  ranked-Pairs i [] h = tt
  ranked-Pairs i (s ∷ ss) h =
      let (x, e) = h.0 in (rw e (ranked-apart s x (suc i) ss e h.1), ranked-Pairs (suc i) ss h.1)

-- Two sites have the same metro rank exactly when they have the same metro.
pub rank-apart :
    (sites : List Site)
    → Pairs
        (λ s t. (s.registration.metro ≡ t.registration.metro) ↔ (s.metro_rank ≡ t.metro_rank))
        (rank sites)
rank-apart sites =
    rw (rank-ranked sites)
      (ranked-Pairs (metros_from [] sites) 0 sites (metros_from-IsPlaced [] sites))
