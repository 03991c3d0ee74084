-- ===== src/Static/Regions/NlToPf.antt =====
-- static/regions.go, NL-BQ1 to PF-X05~.
use locate.Prelude.{String, ◌≡◌, refl, true, [], ◌∷◌}
use locate.Prelude.Maps.{Map}
use locate.Clientgeo.Coordinates.{all_places}

abbrev pub nl_to_pf : Map String
nl_to_pf =
    ("NL-BQ1", "12.23140000,-68.3029000")
    ∷ ("NL-BQ2", "17.63250000,-63.2371000")
    ∷ ("NL-BQ3", "17.48520000,-62.9719000")
    ∷ ("NL-DR", "52.90460000,6.6006400")
    ∷ ("NL-FL", "52.55080000,5.5574600")
    ∷ ("NL-FR", "53.07920000,5.7734500")
    ∷ ("NL-GE", "52.06350000,5.9600100")
    ∷ ("NL-GR", "53.27900000,6.7306700")
    ∷ ("NL-LI", "51.22480000,5.9316100")
    ∷ ("NL-NB", "51.60080000,5.1612200")
    ∷ ("NL-NH", "52.57480000,4.8973600")
    ∷ ("NL-OV", "52.43110000,6.4164900")
    ∷ ("NL-SX", "18.04010000,-63.0677000")
    ∷ ("NL-UT", "52.07490000,5.1938000")
    ∷ ("NL-ZE", "51.28370000,3.7851500")
    ∷ ("NL-ZH", "52.00750000,4.5225200")
    ∷ ("NO-01", "59.40650000,11.2074000")
    ∷ ("NO-02", "60.13650000,11.2222000")
    ∷ ("NO-03", "60.02370000,10.6419000")
    ∷ ("NO-04", "61.52850000,11.2721000")
    ∷ ("NO-05", "61.57310000,9.2464400")
    ∷ ("NO-06", "60.42530000,9.0457300")
    ∷ ("NO-07", "59.31460000,10.1269000")
    ∷ ("NO-08", "59.54760000,8.4880400")
    ∷ ("NO-09", "58.66980000,8.1487800")
    ∷ ("NO-10", "58.44810000,7.3089700")
    ∷ ("NO-11", "59.15850000,6.4180900")
    ∷ ("NO-12", "60.11340000,6.8965700")
    ∷ ("NO-14", "61.55380000,6.4328200")
    ∷ ("NO-15", "62.54710000,8.3510700")
    ∷ ("NO-16", "62.96130000,10.6956000")
    ∷ ("NO-17", "64.27730000,12.2637000")
    ∷ ("NO-18", "66.73470000,14.7203000")
    ∷ ("NO-19", "68.90530000,19.0835000")
    ∷ ("NO-20", "69.56480000,24.4789000")
    ∷ ("NO-21", "78.81240000,18.0690000")
    ∷ ("NO-X01~", "-54.41510000,3.4167700")
    ∷ ("NP-BA", "27.84910000,85.3494000")
    ∷ ("NP-BH", "28.45010000,81.7802000")
    ∷ ("NP-DH", "28.48010000,83.5602000")
    ∷ ("NP-GA", "28.32930000,84.3034000")
    ∷ ("NP-JA", "27.17900000,85.9718000")
    ∷ ("NP-KA", "29.47400000,82.4637000")
    ∷ ("NP-KO", "27.09370000,87.3229000")
    ∷ ("NP-LU", "27.69500000,83.5500000")
    ∷ ("NP-MA", "29.52050000,80.5573000")
    ∷ ("NP-ME", "27.15870000,87.8075000")
    ∷ ("NP-NA", "27.37310000,84.7202000")
    ∷ ("NP-RA", "28.32680000,82.5518000")
    ∷ ("NP-SA", "27.27190000,86.6607000")
    ∷ ("NP-SE", "29.31200000,81.1630000")
    ∷ ("NR-01", "-0.52981600,166.9130000")
    ∷ ("NR-02", "-0.49751100,166.9440000")
    ∷ ("NR-03", "-0.49470200,166.9360000")
    ∷ ("NR-04", "-0.51998400,166.9470000")
    ∷ ("NR-05", "-0.50067200,166.9250000")
    ∷ ("NR-06", "-0.53859400,166.9160000")
    ∷ ("NR-07", "-0.52787700,166.9250000")
    ∷ ("NR-08", "-0.52033500,166.9140000")
    ∷ ("NR-09", "-0.50207600,166.9340000")
    ∷ ("NR-10", "-0.50453400,166.9510000")
    ∷ ("NR-11", "-0.53964800,166.9390000")
    ∷ ("NR-12", "-0.51296100,166.9210000")
    ∷ ("NR-13", "-0.50699200,166.9240000")
    ∷ ("NR-14", "-0.54315900,166.9250000")
    ∷ ("NU-X01~", "-19.04670000,-169.8660000")
    ∷ ("NZ-AUK", "-36.63340000,174.5970000")
    ∷ ("NZ-BOP", "-38.21610000,176.8580000")
    ∷ ("NZ-CAN", "-43.40000000,171.8130000")
    ∷ ("NZ-CIT", "-44.27220000,-176.1740000")
    ∷ ("NZ-GIS", "-38.34420000,177.9300000")
    ∷ ("NZ-HKB", "-39.54340000,176.6050000")
    ∷ ("NZ-MBH", "-41.63800000,173.6560000")
    ∷ ("NZ-MWT", "-39.85180000,175.6270000")
    ∷ ("NZ-NSN", "-41.25080000,173.3880000")
    ∷ ("NZ-NTL", "-35.58740000,173.9810000")
    ∷ ("NZ-OTA", "-45.42960000,169.8870000")
    ∷ ("NZ-STL", "-45.64550000,167.9280000")
    ∷ ("NZ-TAS", "-41.67130000,172.6750000")
    ∷ ("NZ-TKI", "-39.33820000,174.4140000")
    ∷ ("NZ-WGN", "-41.22750000,175.2000000")
    ∷ ("NZ-WKO", "-38.04090000,175.4450000")
    ∷ ("NZ-WTC", "-43.36200000,170.4020000")
    ∷ ("NZ-X01~", "-29.24360000,-177.9100000")
    ∷ ("NZ-X03~", "-34.15660000,172.1350000")
    ∷ ("NZ-X04~", "-49.65320000,178.8010000")
    ∷ ("NZ-X05~", "-52.54550000,169.1830000")
    ∷ ("NZ-X06~", "-50.76640000,166.1100000")
    ∷ ("NZ-X07~", "-48.02270000,166.6080000")
    ∷ ("OM-BA", "23.97940000,56.8199000")
    ∷ ("OM-BJ", "23.42990000,57.6472000")
    ∷ ("OM-BU", "24.38880000,55.9933000")
    ∷ ("OM-DA", "22.47400000,57.3411000")
    ∷ ("OM-MA", "23.25050000,58.6759000")
    ∷ ("OM-MU", "25.97440000,56.2943000")
    ∷ ("OM-SH", "21.59580000,58.9632000")
    ∷ ("OM-SS", "22.29430000,58.5650000")
    ∷ ("OM-WU", "20.42630000,56.8705000")
    ∷ ("OM-ZA", "22.91270000,55.9327000")
    ∷ ("OM-ZU", "18.49660000,54.2927000")
    ∷ ("PA-1", "9.20739000,-82.6597000")
    ∷ ("PA-2", "8.57708000,-80.4314000")
    ∷ ("PA-3", "9.17018000,-79.9683000")
    ∷ ("PA-4", "8.30824000,-82.0992000")
    ∷ ("PA-6", "7.85632000,-80.6613000")
    ∷ ("PA-7", "7.58403000,-80.3927000")
    ∷ ("PA-8", "9.08628000,-78.9283000")
    ∷ ("PA-9", "8.22553000,-81.1447000")
    ∷ ("PA-EM", "7.86013000,-78.1396000")
    ∷ ("PA-KY", "9.28269000,-78.3273000")
    ∷ ("PA-NB", "8.68000000,-81.7558000")
    ∷ ("PE-AMA", "-5.04850000,-77.9695000")
    ∷ ("PE-ANC", "-9.53996000,-77.6571000")
    ∷ ("PE-APU", "-14.03170000,-72.9662000")
    ∷ ("PE-ARE", "-15.87570000,-72.4209000")
    ∷ ("PE-AYA", "-13.92450000,-73.9838000")
    ∷ ("PE-CAJ", "-6.81775000,-78.6091000")
    ∷ ("PE-CAL", "-12.08590000,-77.2248000")
    ∷ ("PE-CUS", "-13.16330000,-72.2479000")
    ∷ ("PE-HUC", "-9.59203000,-75.9161000")
    ∷ ("PE-HUV", "-13.05230000,-75.0416000")
    ∷ ("PE-ICA", "-14.22570000,-75.6773000")
    ∷ ("PE-JUN", "-11.37440000,-74.9642000")
    ∷ ("PE-LAL", "-8.21334000,-78.2813000")
    ∷ ("PE-LAM", "-6.25140000,-79.8994000")
    ∷ ("PE-LIM", "-11.06020000,-77.0756000")
    ∷ ("PE-LOR", "-4.27471000,-73.8868000")
    ∷ ("PE-MDD", "-11.87260000,-70.6831000")
    ∷ ("PE-MOQ", "-16.68070000,-70.7546000")
    ∷ ("PE-PAS", "-10.34570000,-75.4586000")
    ∷ ("PE-PIU", "-5.09955000,-80.2868000")
    ∷ ("PE-PUN", "-15.16770000,-69.9802000")
    ∷ ("PE-SAM", "-7.30853000,-76.6238000")
    ∷ ("PE-TAC", "-17.57420000,-70.3423000")
    ∷ ("PE-TUM", "-3.88493000,-80.6135000")
    ∷ ("PE-UCA", "-9.99816000,-73.2493000")
    ∷ ("PF-X01~", "-17.74620000,-149.5190000")
    ∷ ("PF-X02~", "-16.66920000,-151.4950000")
    ∷ ("PF-X03~", "-16.73770000,-143.1440000")
    ∷ ("PF-X04~", "-22.52180000,-151.3240000")
    ∷ ("PF-X05~", "-9.75565000,-139.0370000")
    ∷ []

pub all_places-nl_to_pf : all_places nl_to_pf ≡ true
unfolding all_places
all_places-nl_to_pf = refl
