-- ===== src/Static/Regions/ZmToZw.antt =====
-- static/regions.go, ZM-01 to ZW-MW.
use locate.Prelude.{String, ◌≡◌, refl, true, [], ◌∷◌}
use locate.Prelude.Maps.{Map}
use locate.Clientgeo.Coordinates.{all_places}

abbrev pub zm_to_zw : Map String
zm_to_zw =
    ("ZM-01", "-15.78150000,23.7642000")
    ∷ ("ZM-02", "-14.51990000,28.3755000")
    ∷ ("ZM-03", "-13.76170000,31.8341000")
    ∷ ("ZM-04", "-11.64710000,29.4045000")
    ∷ ("ZM-05", "-9.79906000,30.7539000")
    ∷ ("ZM-06", "-12.73030000,24.7847000")
    ∷ ("ZM-07", "-16.69060000,26.9583000")
    ∷ ("ZM-08", "-13.10440000,27.9272000")
    ∷ ("ZM-09", "-15.44260000,29.0846000")
    ∷ ("ZM-10", "-11.37010000,32.0234000")
    ∷ ("ZW-BU", "-20.13930000,28.5463000")
    ∷ ("ZW-HA", "-17.89280000,31.0506000")
    ∷ ("ZW-MA", "-18.93990000,32.1206000")
    ∷ ("ZW-MC", "-16.88220000,31.3922000")
    ∷ ("ZW-ME", "-18.21410000,31.6660000")
    ∷ ("ZW-MI", "-19.08280000,29.4323000")
    ∷ ("ZW-MN", "-18.75820000,27.2215000")
    ∷ ("ZW-MS", "-20.89130000,28.8871000")
    ∷ ("ZW-MV", "-20.78440000,31.0875000")
    ∷ ("ZW-MW", "-17.01760000,29.5025000")
    ∷ []

pub all_places-zm_to_zw : all_places zm_to_zw ≡ true
unfolding all_places
all_places-zm_to_zw = refl
