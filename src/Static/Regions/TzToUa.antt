-- ===== src/Static/Regions/TzToUa.antt =====
-- static/regions.go, TZ-01 to UA-77.
use locate.Prelude.{String, ◌≡◌, refl, true, [], ◌∷◌}
use locate.Prelude.Maps.{Map}
use locate.Clientgeo.Coordinates.{all_places}

abbrev pub tz_to_ua : Map String
tz_to_ua =
    ("TZ-01", "-3.02634000,36.0865000")
    ∷ ("TZ-02", "-6.89289000,39.2857000")
    ∷ ("TZ-03", "-5.73233000,35.9608000")
    ∷ ("TZ-04", "-7.83931000,35.5453000")
    ∷ ("TZ-05", "-1.77904000,31.2578000")
    ∷ ("TZ-06", "-5.05108000,39.7770000")
    ∷ ("TZ-07", "-5.84474000,39.2294000")
    ∷ ("TZ-08", "-4.41836000,30.4057000")
    ∷ ("TZ-09", "-4.01115000,37.6511000")
    ∷ ("TZ-10", "-5.34982000,39.7495000")
    ∷ ("TZ-11", "-6.27410000,39.4241000")
    ∷ ("TZ-12", "-9.44338000,38.4234000")
    ∷ ("TZ-13", "-1.58906000,34.0227000")
    ∷ ("TZ-14", "-8.29695000,33.5281000")
    ∷ ("TZ-15", "-6.15370000,39.2425000")
    ∷ ("TZ-16", "-8.69673000,36.9220000")
    ∷ ("TZ-17", "-10.81400000,39.2212000")
    ∷ ("TZ-18", "-2.67284000,32.6685000")
    ∷ ("TZ-19", "-7.86726000,39.7491000")
    ∷ ("TZ-20", "-7.89580000,31.3337000")
    ∷ ("TZ-21", "-10.71360000,36.3365000")
    ∷ ("TZ-22", "-3.65098000,33.2015000")
    ∷ ("TZ-23", "-5.59564000,34.4149000")
    ∷ ("TZ-24", "-6.82145000,32.6595000")
    ∷ ("TZ-25", "-5.18525000,38.1412000")
    ∷ ("TZ-26", "-4.88783000,36.4591000")
    ∷ ("TZ-27", "-3.09999000,31.6968000")
    ∷ ("TZ-28", "-6.42770000,31.3404000")
    ∷ ("TZ-29", "-9.39902000,34.8871000")
    ∷ ("TZ-30", "-2.96688000,34.2172000")
    ∷ ("UA-05", "48.96230000,28.7233000")
    ∷ ("UA-07", "51.12470000,24.8444000")
    ∷ ("UA-09", "48.90840000,39.0033000")
    ∷ ("UA-12", "48.63130000,34.9555000")
    ∷ ("UA-14", "48.14500000,37.7933000")
    ∷ ("UA-18", "50.68980000,28.4643000")
    ∷ ("UA-21", "48.36340000,23.3868000")
    ∷ ("UA-23", "47.33460000,35.7123000")
    ∷ ("UA-26", "48.66500000,24.6363000")
    ∷ ("UA-30", "50.38300000,30.5277000")
    ∷ ("UA-35", "48.42610000,31.8288000")
    ∷ ("UA-40", "44.51820000,33.6396000")
    ∷ ("UA-43", "45.31150000,34.2784000")
    ∷ ("UA-46", "49.81520000,24.0372000")
    ∷ ("UA-48", "47.09020000,31.6498000")
    ∷ ("UA-51", "46.03150000,29.7568000")
    ∷ ("UA-53", "49.69780000,33.7723000")
    ∷ ("UA-56", "51.04800000,26.3841000")
    ∷ ("UA-59", "50.81530000,34.3159000")
    ∷ ("UA-61", "49.47390000,25.5438000")
    ∷ ("UA-63", "49.46550000,36.4612000")
    ∷ ("UA-65", "46.69640000,33.5787000")
    ∷ ("UA-68", "49.55370000,27.0187000")
    ∷ ("UA-71", "49.15060000,31.2241000")
    ∷ ("UA-74", "51.25970000,32.0287000")
    ∷ ("UA-77", "48.28920000,26.2156000")
    ∷ []

pub all_places-tz_to_ua : all_places tz_to_ua ≡ true
unfolding all_places
all_places-tz_to_ua = refl
