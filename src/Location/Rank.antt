-- ===== src/Location/Rank.antt =====
-- `rank`: number the sites in order, and the metros in the order of their first site.
pub mod Metros
pub mod Apart
use locate.Prelude.{ℕ, suc, String, Option, none, some, List, [], ◌∷◌}
use locate.Prelude.Maps.{Map, lookup, insert}
use locate.Location.Types.{Site}

abbrev pub or_zero : Option ℕ → ℕ
or_zero none = 0
or_zero (some n) = n

-- `if !ok { metros[metro] = metroRank; metroRank++ }`
unfoldable pub note_metro : String → ℕ → Map ℕ → Option ℕ → ℕ × Map ℕ
note_metro metro metro_rank metros none = (suc metro_rank, insert metro metro_rank metros)
note_metro metro metro_rank metros (some _) = (metro_rank, metros)

-- The loop, from index `i` on, with `metroRank` and `metros` as they stand.
unfoldable pub rank_from : ℕ → ℕ → Map ℕ → List Site → List Site
unfolding note_metro
rank_from i metro_rank metros [] = []
rank_from i metro_rank metros (s ∷ ss) =
    let metro = s.registration.metro in
    let noted = note_metro metro metro_rank metros (lookup metro metros) in
    record s { rank = i; metro_rank = or_zero (lookup metro noted.1) }
    ∷ rank_from (suc i) noted.0 noted.1 ss

unfoldable pub rank : List Site → List Site
unfolding rank_from
rank sites = rank_from 0 0 [] sites
