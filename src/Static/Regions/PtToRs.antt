-- ===== src/Static/Regions/PtToRs.antt =====
-- static/regions.go, PT-01 to RS-24.
use locate.Prelude.{String, ◌≡◌, refl, true, [], ◌∷◌}
use locate.Prelude.Maps.{Map}
use locate.Clientgeo.Coordinates.{all_places}

abbrev pub pt_to_rs : Map String
pt_to_rs =
    ("PT-01", "40.67380000,-8.4394000")
    ∷ ("PT-02", "37.85110000,-7.8871600")
    ∷ ("PT-03", "41.56630000,-8.3186300")
    ∷ ("PT-04", "41.51880000,-6.8193500")
    ∷ ("PT-05", "39.99840000,-7.5822400")
    ∷ ("PT-06", "40.16450000,-8.3219300")
    ∷ ("PT-07", "38.60360000,-7.8846300")
    ∷ ("PT-08", "37.17040000,-7.9389500")
    ∷ ("PT-09", "40.29180000,-7.3162400")
    ∷ ("PT-10", "39.75830000,-8.7585700")
    ∷ ("PT-11", "38.98350000,-9.1339700")
    ∷ ("PT-12", "39.28220000,-7.6538900")
    ∷ ("PT-13", "41.21180000,-8.3311400")
    ∷ ("PT-14", "39.29100000,-8.4037800")
    ∷ ("PT-15", "38.20710000,-8.5731800")
    ∷ ("PT-16", "41.90990000,-8.4986000")
    ∷ ("PT-17", "41.52790000,-7.6453300")
    ∷ ("PT-18", "40.84170000,-7.8274500")
    ∷ ("PT-20", "38.63510000,-28.0394000")
    ∷ ("PT-30", "32.74270000,-16.9465000")
    ∷ ("PW-002", "7.43236000,134.5330000")
    ∷ ("PW-004", "7.39952000,134.5710000")
    ∷ ("PW-010", "6.91388000,134.1580000")
    ∷ ("PW-050", "2.96318000,131.7940000")
    ∷ ("PW-100", "8.07050000,134.7110000")
    ∷ ("PW-150", "7.26579000,134.4460000")
    ∷ ("PW-212", "7.51682000,134.6130000")
    ∷ ("PW-214", "7.65055000,134.6500000")
    ∷ ("PW-218", "7.70686000,134.6410000")
    ∷ ("PW-222", "7.60128000,134.5970000")
    ∷ ("PW-224", "7.47929000,134.5520000")
    ∷ ("PW-226", "7.46286000,134.5970000")
    ∷ ("PW-227", "7.53794000,134.5750000")
    ∷ ("PW-228", "7.57313000,134.6360000")
    ∷ ("PW-350", "7.02649000,134.2590000")
    ∷ ("PW-370", "5.28876000,132.2040000")
    ∷ ("PY-1", "-22.84580000,-57.0543000")
    ∷ ("PY-10", "-25.37570000,-54.9426000")
    ∷ ("PY-11", "-25.67110000,-57.5265000")
    ∷ ("PY-12", "-26.66390000,-57.9275000")
    ∷ ("PY-13", "-23.22950000,-56.1788000")
    ∷ ("PY-14", "-24.25670000,-55.2022000")
    ∷ ("PY-15", "-23.42340000,-58.9417000")
    ∷ ("PY-16", "-21.79600000,-59.8709000")
    ∷ ("PY-19", "-22.09430000,-60.9776000")
    ∷ ("PY-2", "-24.20010000,-56.6053000")
    ∷ ("PY-3", "-25.25060000,-56.9747000")
    ∷ ("PY-4", "-25.81370000,-56.1486000")
    ∷ ("PY-5", "-25.22340000,-55.8821000")
    ∷ ("PY-6", "-26.20050000,-56.0049000")
    ∷ ("PY-7", "-26.85450000,-55.6773000")
    ∷ ("PY-8", "-26.98610000,-57.1187000")
    ∷ ("PY-9", "-25.98050000,-57.1460000")
    ∷ ("PY-ASU", "-25.30960000,-57.5735000")
    ∷ ("QA-DA", "25.26860000,51.5282000")
    ∷ ("QA-KH", "25.75120000,51.4212000")
    ∷ ("QA-MS", "26.00950000,51.1832000")
    ∷ ("QA-RA", "25.16480000,51.1605000")
    ∷ ("QA-US", "25.45940000,51.3552000")
    ∷ ("QA-WA", "24.96610000,51.4743000")
    ∷ ("QA-ZA", "25.45790000,51.4671000")
    ∷ ("RO-AB", "46.14780000,23.5651000")
    ∷ ("RO-AG", "44.98670000,24.8859000")
    ∷ ("RO-AR", "46.30190000,21.7296000")
    ∷ ("RO-B", "44.46700000,26.0999000")
    ∷ ("RO-BC", "46.40670000,26.7643000")
    ∷ ("RO-BH", "47.08650000,22.1155000")
    ∷ ("RO-BN", "47.17890000,24.5132000")
    ∷ ("RO-BR", "45.13460000,27.6204000")
    ∷ ("RO-BT", "47.86800000,26.7668000")
    ∷ ("RO-BV", "45.77290000,25.3749000")
    ∷ ("RO-BZ", "45.20710000,26.7347000")
    ∷ ("RO-CJ", "46.74790000,23.5307000")
    ∷ ("RO-CL", "44.31440000,27.1514000")
    ∷ ("RO-CS", "45.06250000,22.0247000")
    ∷ ("RO-CT", "44.50990000,28.4763000")
    ∷ ("RO-CV", "45.88850000,25.9665000")
    ∷ ("RO-DB", "44.84860000,25.5960000")
    ∷ ("RO-DJ", "44.21900000,23.5718000")
    ∷ ("RO-GJ", "44.98270000,23.2029000")
    ∷ ("RO-GL", "45.78610000,27.7329000")
    ∷ ("RO-GR", "44.11330000,25.9780000")
    ∷ ("RO-HD", "45.74350000,22.9774000")
    ∷ ("RO-HR", "46.63930000,25.5853000")
    ∷ ("RO-IL", "44.63450000,27.1899000")
    ∷ ("RO-IS", "47.20530000,27.3031000")
    ∷ ("RO-MH", "44.58370000,22.9252000")
    ∷ ("RO-MM", "47.64350000,23.9992000")
    ∷ ("RO-MS", "46.58560000,24.6284000")
    ∷ ("RO-NT", "46.97040000,26.4554000")
    ∷ ("RO-OT", "44.32880000,24.3781000")
    ∷ ("RO-PH", "45.11330000,26.0168000")
    ∷ ("RO-SB", "45.90380000,24.2957000")
    ∷ ("RO-SJ", "47.14830000,23.1615000")
    ∷ ("RO-SM", "47.66320000,22.8986000")
    ∷ ("RO-SV", "47.21440000,25.8089000")
    ∷ ("RO-TL", "45.02570000,28.6227000")
    ∷ ("RO-TM", "45.59630000,21.3930000")
    ∷ ("RO-TR", "44.08310000,25.1818000")
    ∷ ("RO-VL", "45.01420000,24.0601000")
    ∷ ("RO-VN", "45.79630000,26.9802000")
    ∷ ("RO-VS", "46.52250000,27.7259000")
    ∷ ("RS-00", "44.64080000,20.4001000")
    ∷ ("RS-01", "45.93260000,19.5801000")
    ∷ ("RS-02", "45.44210000,20.5398000")
    ∷ ("RS-03", "45.95890000,20.2047000")
    ∷ ("RS-04", "45.00650000,20.9652000")
    ∷ ("RS-05", "45.70920000,19.2283000")
    ∷ ("RS-06", "45.38880000,19.6470000")
    ∷ ("RS-07", "45.03810000,19.6739000")
    ∷ ("RS-08", "44.59880000,19.4948000")
    ∷ ("RS-09", "44.32090000,19.9249000")
    ∷ ("RS-10", "44.47650000,20.9527000")
    ∷ ("RS-11", "44.46320000,21.5363000")
    ∷ ("RS-12", "44.09850000,20.8116000")
    ∷ ("RS-13", "43.97570000,21.3631000")
    ∷ ("RS-14", "44.38240000,22.2686000")
    ∷ ("RS-15", "43.68340000,22.1524000")
    ∷ ("RS-16", "43.62630000,19.7284000")
    ∷ ("RS-17", "43.71270000,20.2653000")
    ∷ ("RS-18", "43.38110000,20.5783000")
    ∷ ("RS-19", "43.52110000,21.1638000")
    ∷ ("RS-20", "43.33880000,21.9087000")
    ∷ ("RS-21", "43.11980000,21.3637000")
    ∷ ("RS-22", "43.10290000,22.5488000")
    ∷ ("RS-23", "42.96400000,21.9611000")
    ∷ ("RS-24", "42.55430000,22.0252000")
    ∷ []

pub all_places-pt_to_rs : all_places pt_to_rs ≡ true
unfolding all_places
all_places-pt_to_rs = refl
