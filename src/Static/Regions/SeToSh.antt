-- ===== src/Static/Regions/SeToSh.antt =====
-- static/regions.go, SE-AB to SH-TA.
use locate.Prelude.{String, ◌≡◌, refl, true, [], ◌∷◌}
use locate.Prelude.Maps.{Map}
use locate.Clientgeo.Coordinates.{all_places}

abbrev pub se_to_sh : Map String
se_to_sh =
    ("SE-AB", "59.36590000,17.8652000")
    ∷ ("SE-AC", "64.70480000,18.3726000")
    ∷ ("SE-BD", "66.83700000,20.4529000")
    ∷ ("SE-C", "60.15220000,17.7896000")
    ∷ ("SE-D", "59.07780000,16.6334000")
    ∷ ("SE-E", "58.36550000,15.7022000")
    ∷ ("SE-F", "57.54780000,14.4240000")
    ∷ ("SE-G", "56.82650000,14.5773000")
    ∷ ("SE-H", "57.27640000,16.0875000")
    ∷ ("SE-I", "57.47330000,18.4826000")
    ∷ ("SE-K", "56.29290000,15.2163000")
    ∷ ("SE-M", "55.90730000,13.5193000")
    ∷ ("SE-N", "56.97450000,12.8007000")
    ∷ ("SE-O", "58.24280000,12.8371000")
    ∷ ("SE-S", "59.80680000,13.0764000")
    ∷ ("SE-T", "59.39130000,15.0594000")
    ∷ ("SE-U", "59.79790000,16.4244000")
    ∷ ("SE-W", "60.81400000,14.4404000")
    ∷ ("SE-X", "61.36910000,16.5023000")
    ∷ ("SE-Y", "62.91450000,17.3697000")
    ∷ ("SE-Z", "63.33060000,14.4806000")
    ∷ ("SG-01", "1.31704000,103.8460000")
    ∷ ("SG-02", "1.38379000,103.9250000")
    ∷ ("SG-03", "1.41809000,103.8080000")
    ∷ ("SG-04", "1.33524000,103.9320000")
    ∷ ("SG-05", "1.33718000,103.7050000")
    ∷ ("SH-AC", "-7.91916000,-14.3701000")
    ∷ ("SH-HL", "-15.93170000,-5.7064300")
    ∷ ("SH-TA", "-37.12260000,-12.2667000")
    ∷ []

pub all_places-se_to_sh : all_places se_to_sh ≡ true
unfolding all_places
all_places-se_to_sh = refl
