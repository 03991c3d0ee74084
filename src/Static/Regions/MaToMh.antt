-- ===== src/Static/Regions/MaToMh.antt =====
-- static/regions.go, MA-01 to MH-T.
use locate.Prelude.{String, ◌≡◌, refl, true, [], ◌∷◌}
use locate.Prelude.Maps.{Map}
use locate.Clientgeo.Coordinates.{all_places}

abbrev pub ma_to_mh : Map String
ma_to_mh =
    ("MA-01", "35.28840000,-5.3566400")
    ∷ ("MA-02", "34.53560000,-5.9502000")
    ∷ ("MA-03", "34.55260000,-4.2198900")
    ∷ ("MA-04", "33.61610000,-2.5158000")
    ∷ ("MA-05", "33.23430000,-4.1733200")
    ∷ ("MA-06", "31.79160000,-4.7860200")
    ∷ ("MA-07", "33.69860000,-6.4207900")
    ∷ ("MA-08", "33.54500000,-7.5559500")
    ∷ ("MA-09", "33.09770000,-7.0775000")
    ∷ ("MA-10", "32.40590000,-8.7136000")
    ∷ ("MA-11", "31.34720000,-8.4374900")
    ∷ ("MA-12", "32.16480000,-6.3608700")
    ∷ ("MA-13", "30.67320000,-7.7151700")
    ∷ ("MA-14", "28.15810000,-10.0502000")
    ∷ ("MA-15", "25.94920000,-13.2780000")
    ∷ ("MA-16", "23.01160000,-14.9815000")
    ∷ ("MC-X01~", "43.74610000,7.3997900")
    ∷ ("MD-AN", "46.88170000,29.1922000")
    ∷ ("MD-BA", "47.77630000,27.9516000")
    ∷ ("MD-BD", "46.78970000,29.6966000")
    ∷ ("MD-BR", "48.26460000,26.9644000")
    ∷ ("MD-BS", "46.37260000,28.8846000")
    ∷ ("MD-CA", "45.64000000,28.3144000")
    ∷ ("MD-CAM", "48.03690000,28.7044000")
    ∷ ("MD-CL", "47.28920000,28.3373000")
    ∷ ("MD-CM", "46.58850000,28.7794000")
    ∷ ("MD-CR", "47.17820000,29.0355000")
    ∷ ("MD-CS", "46.61850000,29.3728000")
    ∷ ("MD-CT", "46.26200000,28.3107000")
    ∷ ("MD-CU", "47.03480000,28.8220000")
    ∷ ("MD-DO", "48.23390000,27.7632000")
    ∷ ("MD-DR", "48.02670000,27.8915000")
    ∷ ("MD-ED", "48.13320000,27.2978000")
    ∷ ("MD-FA", "47.57000000,27.7231000")
    ∷ ("MD-FL", "47.87070000,28.2994000")
    ∷ ("MD-GA", "46.19100000,28.6386000")
    ∷ ("MD-GL", "47.74950000,27.5658000")
    ∷ ("MD-GRI", "47.11940000,29.4396000")
    ∷ ("MD-HI", "46.82980000,28.4160000")
    ∷ ("MD-IA", "46.89050000,28.7874000")
    ∷ ("MD-LE", "46.56540000,28.4105000")
    ∷ ("MD-NI", "47.04760000,28.2369000")
    ∷ ("MD-OC", "48.40240000,27.5685000")
    ∷ ("MD-OR", "47.39610000,28.8156000")
    ∷ ("MD-RE", "47.66830000,28.8190000")
    ∷ ("MD-RI", "47.96140000,27.5565000")
    ∷ ("MD-SD", "47.84230000,28.6952000")
    ∷ ("MD-SI", "47.69290000,28.1728000")
    ∷ ("MD-SN", "47.15320000,29.1763000")
    ∷ ("MD-SO", "48.10340000,28.2477000")
    ∷ ("MD-ST", "47.18280000,28.5847000")
    ∷ ("MD-SV", "46.50310000,29.7739000")
    ∷ ("MD-TA", "45.89950000,28.7033000")
    ∷ ("MD-TE", "47.56600000,28.4349000")
    ∷ ("MD-UN", "47.25560000,27.9072000")
    ∷ ("ME-01", "42.69330000,19.7688000")
    ∷ ("ME-02", "42.14160000,19.1463000")
    ∷ ("ME-03", "42.81980000,19.9003000")
    ∷ ("ME-04", "43.01740000,19.7579000")
    ∷ ("ME-05", "42.30390000,18.8929000")
    ∷ ("ME-06", "42.49930000,18.8954000")
    ∷ ("ME-07", "42.59360000,19.1191000")
    ∷ ("ME-08", "42.40410000,18.6027000")
    ∷ ("ME-09", "42.78890000,19.4394000")
    ∷ ("ME-10", "42.54150000,18.6500000")
    ∷ ("ME-11", "42.97100000,19.5150000")
    ∷ ("ME-12", "42.83410000,18.8259000")
    ∷ ("ME-13", "42.59850000,19.9168000")
    ∷ ("ME-14", "43.30190000,19.2264000")
    ∷ ("ME-15", "43.14830000,18.8229000")
    ∷ ("ME-16", "42.44620000,19.3069000")
    ∷ ("ME-17", "42.86150000,20.2013000")
    ∷ ("ME-18", "42.95710000,19.1516000")
    ∷ ("ME-19", "42.38970000,18.6898000")
    ∷ ("ME-20", "42.00390000,19.2564000")
    ∷ ("ME-21", "43.11480000,19.2003000")
    ∷ ("MF-X00~", "18.07990000,-63.0780000")
    ∷ ("MG-A", "-16.57630000,49.5586000")
    ∷ ("MG-D", "-13.59160000,49.0800000")
    ∷ ("MG-F", "-20.54490000,46.7822000")
    ∷ ("MG-M", "-15.29090000,48.4645000")
    ∷ ("MG-T", "-18.47430000,47.4810000")
    ∷ ("MG-U", "-20.31190000,45.0481000")
    ∷ ("MH-L", "7.59556000,168.9590000")
    ∷ ("MH-T", "9.45915000,170.2430000")
    ∷ []

pub all_places-ma_to_mh : all_places ma_to_mh ≡ true
unfolding all_places
all_places-ma_to_mh = refl
