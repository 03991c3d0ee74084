-- ===== src/Static/Regions/JpToKy.antt =====
-- static/regions.go, JP-01 to KY-X01~.
use locate.Prelude.{String, ◌≡◌, refl, true, [], ◌∷◌}
use locate.Prelude.Maps.{Map}
use locate.Clientgeo.Coordinates.{all_places}

abbrev pub jp_to_ky : Map String
jp_to_ky =
    ("JP-01", "43.37000000,142.8050000")
    ∷ ("JP-02", "40.63850000,140.7690000")
    ∷ ("JP-03", "39.57150000,141.3640000")
    ∷ ("JP-04", "38.53070000,140.9720000")
    ∷ ("JP-05", "39.73180000,140.3340000")
    ∷ ("JP-06", "38.40240000,140.0840000")
    ∷ ("JP-07", "37.41530000,140.0990000")
    ∷ ("JP-08", "36.27730000,140.2570000")
    ∷ ("JP-09", "36.65930000,139.7860000")
    ∷ ("JP-10", "36.55920000,139.0250000")
    ∷ ("JP-11", "36.01730000,139.2870000")
    ∷ ("JP-12", "35.48900000,140.3180000")
    ∷ ("JP-13", "35.65780000,139.4070000")
    ∷ ("JP-14", "35.43780000,139.3440000")
    ∷ ("JP-15", "37.54710000,139.0050000")
    ∷ ("JP-16", "36.59600000,137.2460000")
    ∷ ("JP-17", "36.56540000,136.6770000")
    ∷ ("JP-18", "35.92970000,136.3160000")
    ∷ ("JP-19", "35.61490000,138.6450000")
    ∷ ("JP-20", "36.06660000,138.0190000")
    ∷ ("JP-21", "35.85220000,136.9410000")
    ∷ ("JP-22", "35.03590000,138.3060000")
    ∷ ("JP-23", "34.99730000,137.2140000")
    ∷ ("JP-24", "34.56790000,136.3860000")
    ∷ ("JP-25", "35.18320000,136.0930000")
    ∷ ("JP-26", "35.21170000,135.4510000")
    ∷ ("JP-27", "34.59930000,135.5190000")
    ∷ ("JP-28", "35.06300000,134.8370000")
    ∷ ("JP-29", "34.28150000,135.8770000")
    ∷ ("JP-30", "33.93000000,135.4010000")
    ∷ ("JP-31", "35.36570000,133.8190000")
    ∷ ("JP-32", "35.09720000,132.6030000")
    ∷ ("JP-33", "34.85210000,133.8310000")
    ∷ ("JP-34", "34.60670000,132.8530000")
    ∷ ("JP-35", "34.21540000,131.6450000")
    ∷ ("JP-36", "33.85460000,134.2000000")
    ∷ ("JP-37", "34.21620000,134.0010000")
    ∷ ("JP-38", "33.81410000,132.9160000")
    ∷ ("JP-39", "33.61290000,133.4420000")
    ∷ ("JP-40", "33.49060000,130.6160000")
    ∷ ("JP-41", "33.00970000,130.1470000")
    ∷ ("JP-42", "32.67450000,128.7550000")
    ∷ ("JP-43", "32.58800000,130.8340000")
    ∷ ("JP-44", "33.20060000,131.4490000")
    ∷ ("JP-45", "32.09810000,131.2860000")
    ∷ ("JP-46", "29.45720000,129.6010000")
    ∷ ("JP-47", "24.33490000,123.8020000")
    ∷ ("KE-110", "-1.29384000,36.9039000")
    ∷ ("KE-200", "-0.70998600,36.8463000")
    ∷ ("KE-300", "-2.51514000,39.5816000")
    ∷ ("KE-400", "2.60695000,37.7915000")
    ∷ ("KE-500", "1.01482000,40.2748000")
    ∷ ("KE-600", "-0.51145200,34.4239000")
    ∷ ("KE-700", "1.15655000,36.0169000")
    ∷ ("KE-800", "0.53704900,34.5306000")
    ∷ ("KG-GB", "42.84240000,74.5877000")
    ∷ ("KG-J", "41.58860000,72.4506000")
    ∷ ("KG-N", "41.34380000,75.9766000")
    ∷ ("KG-O", "40.11220000,73.1770000")
    ∷ ("KG-T", "42.47950000,72.2727000")
    ∷ ("KG-Y", "42.03870000,77.9472000")
    ∷ ("KH-1", "13.73590000,102.8730000")
    ∷ ("KH-10", "12.66000000,106.1840000")
    ∷ ("KH-11", "12.62840000,106.9610000")
    ∷ ("KH-12", "11.57330000,104.8740000")
    ∷ ("KH-13", "13.72800000,105.1250000")
    ∷ ("KH-14", "11.35610000,105.4730000")
    ∷ ("KH-15", "12.33910000,103.5490000")
    ∷ ("KH-16", "13.24180000,107.0820000")
    ∷ ("KH-17", "13.57110000,104.0430000")
    ∷ ("KH-18", "10.48540000,103.7750000")
    ∷ ("KH-19", "13.66620000,106.0950000")
    ∷ ("KH-2", "12.96750000,103.0680000")
    ∷ ("KH-20", "11.04160000,105.8880000")
    ∷ ("KH-21", "10.93460000,104.7510000")
    ∷ ("KH-22", "14.17120000,103.5500000")
    ∷ ("KH-23", "10.53080000,104.3460000")
    ∷ ("KH-24", "12.89010000,102.6110000")
    ∷ ("KH-3", "12.12060000,105.6290000")
    ∷ ("KH-4", "12.16240000,104.5480000")
    ∷ ("KH-5", "11.52210000,104.2820000")
    ∷ ("KH-6", "12.68830000,104.9720000")
    ∷ ("KH-7", "10.85030000,104.3280000")
    ∷ ("KH-9", "11.56090000,103.4660000")
    ∷ ("KI-X01~", "-0.85776400,169.5460000")
    ∷ ("KI-X02~", "-4.68967000,-174.5110000")
    ∷ ("KM-A", "-12.22600000,44.4518000")
    ∷ ("KM-G", "-11.69520000,43.3378000")
    ∷ ("KM-M", "-12.31780000,43.7462000")
    ∷ ("KN-01", "17.36400000,-62.7582000")
    ∷ ("KN-02", "17.35740000,-62.8369000")
    ∷ ("KN-03", "17.28360000,-62.6868000")
    ∷ ("KN-04", "17.13010000,-62.5571000")
    ∷ ("KN-05", "17.17820000,-62.5718000")
    ∷ ("KN-06", "17.38200000,-62.7967000")
    ∷ ("KN-07", "17.11620000,-62.5949000")
    ∷ ("KN-08", "17.34590000,-62.7286000")
    ∷ ("KN-09", "17.39110000,-62.8337000")
    ∷ ("KN-10", "17.13500000,-62.6162000")
    ∷ ("KN-11", "17.32210000,-62.7065000")
    ∷ ("KN-12", "17.15970000,-62.6064000")
    ∷ ("KN-13", "17.32790000,-62.7943000")
    ∷ ("KN-14", "17.30740000,-62.7483000")
    ∷ ("KP-01", "38.98080000,125.9550000")
    ∷ ("KP-02", "39.50050000,126.1580000")
    ∷ ("KP-03", "39.51770000,124.6980000")
    ∷ ("KP-04", "40.65480000,126.4040000")
    ∷ ("KP-05", "37.73370000,125.2790000")
    ∷ ("KP-06", "38.59620000,126.2970000")
    ∷ ("KP-07", "38.72730000,127.5210000")
    ∷ ("KP-08", "40.23400000,127.9220000")
    ∷ ("KP-09", "41.86660000,129.4170000")
    ∷ ("KP-10", "40.96110000,127.8750000")
    ∷ ("KP-13", "42.34140000,130.3730000")
    ∷ ("KR-11", "37.54080000,126.9940000")
    ∷ ("KR-26", "35.19280000,129.0820000")
    ∷ ("KR-27", "35.90340000,128.6310000")
    ∷ ("KR-28", "37.49830000,126.5070000")
    ∷ ("KR-29", "35.19890000,126.9290000")
    ∷ ("KR-30", "36.35630000,127.4010000")
    ∷ ("KR-31", "35.49970000,129.2320000")
    ∷ ("KR-41", "37.25620000,127.2050000")
    ∷ ("KR-42", "37.79510000,128.2200000")
    ∷ ("KR-43", "36.74760000,127.6680000")
    ∷ ("KR-44", "36.46020000,126.8740000")
    ∷ ("KR-45", "35.67900000,127.0810000")
    ∷ ("KR-46", "34.81660000,126.8840000")
    ∷ ("KR-47", "36.33960000,128.7080000")
    ∷ ("KR-48", "35.31920000,128.2170000")
    ∷ ("KR-49", "33.37410000,126.5570000")
    ∷ ("KR-50", "36.49740000,127.2290000")
    ∷ ("KW-AH", "28.86530000,47.9393000")
    ∷ ("KW-FA", "29.25920000,47.9381000")
    ∷ ("KW-HA", "29.32430000,48.0306000")
    ∷ ("KW-JA", "29.78430000,48.2027000")
    ∷ ("KW-KU", "29.44970000,48.3318000")
    ∷ ("KW-MU", "29.25350000,48.0548000")
    ∷ ("KY-X01~", "19.31670000,-81.2592000")
    ∷ []

pub all_places-jp_to_ky : all_places jp_to_ky ≡ true
unfolding all_places
all_places-jp_to_ky = refl
