-- ===== src/Static/Regions/UsToVi.antt =====
-- static/regions.go, US-AK to VI-X03~.
use locate.Prelude.{String, ◌≡◌, refl, true, [], ◌∷◌}
use locate.Prelude.Maps.{Map}
use locate.Clientgeo.Coordinates.{all_places}

abbrev pub us_to_vi : Map String
us_to_vi =
    ("US-AK", "65.36090000,-151.6040000")
    ∷ ("US-AL", "32.85510000,-86.7184000")
    ∷ ("US-AR", "34.75630000,-92.1428000")
    ∷ ("US-AZ", "34.30460000,-111.9350000")
    ∷ ("US-CA", "36.74960000,-119.5910000")
    ∷ ("US-CO", "38.99980000,-105.5430000")
    ∷ ("US-CT", "41.64860000,-72.7594000")
    ∷ ("US-DC", "38.89220000,-77.0113000")
    ∷ ("US-DE", "38.86570000,-75.4112000")
    ∷ ("US-FL", "28.15680000,-81.6228000")
    ∷ ("US-GA", "32.85470000,-83.4078000")
    ∷ ("US-HI", "21.49190000,-157.9990000")
    ∷ ("US-IA", "42.04230000,-93.3891000")
    ∷ ("US-ID", "43.78250000,-114.1330000")
    ∷ ("US-IL", "39.94600000,-89.1991000")
    ∷ ("US-IN", "39.88740000,-86.1396000")
    ∷ ("US-KS", "38.50000000,-98.3309000")
    ∷ ("US-KY", "37.39940000,-85.5729000")
    ∷ ("US-LA", "30.52740000,-91.9991000")
    ∷ ("US-MA", "42.37390000,-71.9993000")
    ∷ ("US-MD", "39.38740000,-77.0454000")
    ∷ ("US-ME", "45.14800000,-69.1973000")
    ∷ ("US-MI", "43.43430000,-84.9479000")
    ∷ ("US-MN", "46.05920000,-93.3640000")
    ∷ ("US-MO", "38.54870000,-92.4460000")
    ∷ ("US-MS", "32.86570000,-89.7189000")
    ∷ ("US-MT", "46.99650000,-110.0440000")
    ∷ ("US-NC", "35.61520000,-78.8660000")
    ∷ ("US-ND", "47.46750000,-100.3020000")
    ∷ ("US-NE", "41.50020000,-99.6855000")
    ∷ ("US-NH", "43.59930000,-71.6301000")
    ∷ ("US-NJ", "40.04490000,-74.4653000")
    ∷ ("US-NM", "34.50020000,-106.0240000")
    ∷ ("US-NV", "39.42990000,-117.0200000")
    ∷ ("US-NY", "43.19880000,-75.3242000")
    ∷ ("US-OH", "40.09240000,-82.6719000")
    ∷ ("US-OK", "35.45200000,-97.1309000")
    ∷ ("US-OR", "43.83330000,-120.3860000")
    ∷ ("US-PA", "40.86010000,-77.6094000")
    ∷ ("US-PR", "18.24480000,-66.4441000")
    ∷ ("US-RI", "41.62420000,-71.5082000")
    ∷ ("US-SC", "33.85780000,-80.6471000")
    ∷ ("US-SD", "44.47110000,-100.2550000")
    ∷ ("US-TN", "35.75140000,-86.3415000")
    ∷ ("US-TX", "31.13100000,-98.7607000")
    ∷ ("US-UT", "39.50070000,-111.5440000")
    ∷ ("US-VA", "37.74030000,-78.2431000")
    ∷ ("US-VT", "44.08860000,-72.7317000")
    ∷ ("US-WA", "47.48650000,-120.3610000")
    ∷ ("US-WI", "44.37090000,-89.5831000")
    ∷ ("US-WV", "38.64220000,-80.7128000")
    ∷ ("US-WY", "42.99990000,-107.5520000")
    ∷ ("UY-AR", "-30.57190000,-56.9399000")
    ∷ ("UY-CA", "-34.54730000,-55.9228000")
    ∷ ("UY-CL", "-32.29630000,-54.2281000")
    ∷ ("UY-CO", "-34.19540000,-57.6787000")
    ∷ ("UY-DU", "-33.10160000,-56.0945000")
    ∷ ("UY-FD", "-33.83500000,-55.8120000")
    ∷ ("UY-FS", "-33.59020000,-56.8849000")
    ∷ ("UY-LA", "-33.87880000,-54.8724000")
    ∷ ("UY-MA", "-34.68850000,-54.9671000")
    ∷ ("UY-MO", "-34.82670000,-56.2283000")
    ∷ ("UY-PA", "-32.09330000,-57.2240000")
    ∷ ("UY-RN", "-32.74410000,-57.4891000")
    ∷ ("UY-RO", "-33.91060000,-53.9584000")
    ∷ ("UY-RV", "-31.46830000,-55.3279000")
    ∷ ("UY-SA", "-31.43980000,-57.0428000")
    ∷ ("UY-SJ", "-34.31170000,-56.7651000")
    ∷ ("UY-SO", "-33.48210000,-57.7585000")
    ∷ ("UY-TA", "-32.10610000,-55.6607000")
    ∷ ("UY-TT", "-33.10210000,-54.1659000")
    ∷ ("UZ-AN", "40.44910000,72.3651000")
    ∷ ("UZ-BU", "39.94600000,63.7729000")
    ∷ ("UZ-FA", "39.93470000,71.7275000")
    ∷ ("UZ-JI", "40.39050000,67.6556000")
    ∷ ("UZ-NW", "42.17260000,64.2722000")
    ∷ ("UZ-QA", "38.77740000,66.0231000")
    ∷ ("UZ-QR", "43.85290000,59.2233000")
    ∷ ("UZ-SA", "39.99260000,66.3126000")
    ∷ ("UZ-SI", "39.95190000,68.8037000")
    ∷ ("UZ-SU", "37.98350000,67.4269000")
    ∷ ("UZ-TK", "41.32300000,69.2464000")
    ∷ ("UZ-XO", "41.24890000,61.2481000")
    ∷ ("VA-X01~", "41.90340000,12.4534000")
    ∷ ("VC-01", "13.28250000,-61.1475000")
    ∷ ("VC-02", "13.19770000,-61.2287000")
    ∷ ("VC-03", "13.31420000,-61.2040000")
    ∷ ("VC-04", "13.16950000,-61.1899000")
    ∷ ("VC-05", "13.23130000,-61.2534000")
    ∷ ("VC-06", "13.01610000,-61.2290000")
    ∷ ("VE-A", "10.48570000,-66.9640000")
    ∷ ("VE-B", "9.05586000,-64.1949000")
    ∷ ("VE-C", "7.04050000,-68.5500000")
    ∷ ("VE-D", "10.16180000,-67.3252000")
    ∷ ("VE-E", "8.22379000,-69.9798000")
    ∷ ("VE-F", "6.00608000,-63.8628000")
    ∷ ("VE-G", "10.15480000,-67.9745000")
    ∷ ("VE-H", "9.30182000,-68.3738000")
    ∷ ("VE-I", "11.08970000,-69.7604000")
    ∷ ("VE-J", "8.72370000,-66.4794000")
    ∷ ("VE-K", "10.15520000,-69.8053000")
    ∷ ("VE-L", "8.49098000,-71.2398000")
    ∷ ("VE-M", "10.26160000,-66.3229000")
    ∷ ("VE-N", "9.50395000,-63.0869000")
    ∷ ("VE-O", "10.97190000,-63.9689000")
    ∷ ("VE-P", "9.15625000,-69.3776000")
    ∷ ("VE-R", "10.47290000,-63.3542000")
    ∷ ("VE-S", "7.85734000,-72.0039000")
    ∷ ("VE-T", "9.49508000,-70.5519000")
    ∷ ("VE-U", "10.34660000,-68.7447000")
    ∷ ("VE-V", "9.58469000,-72.5482000")
    ∷ ("VE-W", "10.93370000,-65.3067000")
    ∷ ("VE-X", "10.58180000,-66.8566000")
    ∷ ("VE-X01~", "15.69900000,-63.6388000")
    ∷ ("VE-Y", "8.78915000,-61.5863000")
    ∷ ("VE-Z", "3.36185000,-65.6187000")
    ∷ ("VG-X01~", "18.35360000,-64.5854000")
    ∷ ("VI-X01~", "17.73500000,-64.7798000")
    ∷ ("VI-X02~", "18.35430000,-64.9263000")
    ∷ ("VI-X03~", "18.34220000,-64.7461000")
    ∷ []

pub all_places-us_to_vi : all_places us_to_vi ≡ true
unfolding all_places
all_places-us_to_vi = refl
