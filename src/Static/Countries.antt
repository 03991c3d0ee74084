-- ===== src/Static/Countries.antt =====
-- static/countries.go: the table, in parts.
pub mod AdToJp
pub mod KeToZw
use locate.Prelude.{String, List, [], ◌∷◌}
use locate.Prelude.Maps.{Map}
use locate.Clientgeo.Coordinates.{all_places, join, IsTable, all_places-join, all_places-IsTable}
use locate.Static.Countries.AdToJp.{ad_to_jp, all_places-ad_to_jp}
use locate.Static.Countries.KeToZw.{ke_to_zw, all_places-ke_to_zw}

abbrev parts : List (Map String)
parts = ad_to_jp ∷ ke_to_zw ∷ []

-- `static.Countries`
pub countries : Map String
countries = join parts

-- Every entry is a latitude and a longitude, in degrees.
pub countries-IsTable : IsTable countries
unfolding countries
countries-IsTable =
    all_places-IsTable (join parts)
      (all_places-join ((ad_to_jp, all_places-ad_to_jp) ∷ (ke_to_zw, all_places-ke_to_zw) ∷ []))
