-- ===== src/Static/Regions/GbToGm.antt =====
-- static/regions.go, GB-NTY to GM-W.
use locate.Prelude.{String, ◌≡◌, refl, true, [], ◌∷◌}
use locate.Prelude.Maps.{Map}
use locate.Clientgeo.Coordinates.{all_places}

abbrev pub gb_to_gm : Map String
gb_to_gm =
    ("GB-NTY", "55.01840000,-1.4826400")
    ∷ ("GB-NWM", "51.52730000,0.0442535")
    ∷ ("GB-NWP", "51.58660000,-2.9498900")
    ∷ ("GB-NYK", "54.21580000,-1.3756700")
    ∷ ("GB-NYM", "54.18040000,-6.2695200")
    ∷ ("GB-OLD", "53.55270000,-2.0358100")
    ∷ ("GB-OMH", "54.58230000,-7.3115600")
    ∷ ("GB-ORK", "58.97150000,-3.1568300")
    ∷ ("GB-OXF", "51.79120000,-1.2912300")
    ∷ ("GB-PEM", "51.66020000,-4.9028100")
    ∷ ("GB-PKN", "56.57100000,-3.8822500")
    ∷ ("GB-PLY", "50.39510000,-4.1125400")
    ∷ ("GB-POL", "50.74270000,-1.9615500")
    ∷ ("GB-POR", "50.80320000,-0.9797930")
    ∷ ("GB-POW", "52.33800000,-3.4415000")
    ∷ ("GB-PTE", "52.58330000,-0.2701070")
    ∷ ("GB-RCC", "54.54850000,-0.9992870")
    ∷ ("GB-RCH", "53.62770000,-2.1438000")
    ∷ ("GB-RCT", "51.61700000,-3.4098800")
    ∷ ("GB-RDB", "51.57320000,0.0852329")
    ∷ ("GB-RDG", "51.44970000,-1.0336700")
    ∷ ("GB-RFW", "55.84370000,-4.5537300")
    ∷ ("GB-RIC", "51.40720000,-0.2985420")
    ∷ ("GB-ROT", "53.38540000,-1.2907200")
    ∷ ("GB-RUT", "52.65700000,-0.6102160")
    ∷ ("GB-SAW", "52.51180000,-2.0028100")
    ∷ ("GB-SAY", "55.23040000,-4.7384100")
    ∷ ("GB-SCB", "55.49290000,-2.7789900")
    ∷ ("GB-SFK", "52.15900000,1.0603900")
    ∷ ("GB-SFT", "53.56470000,-3.0556800")
    ∷ ("GB-SGC", "51.52390000,-2.4620000")
    ∷ ("GB-SHF", "53.40870000,-1.5738700")
    ∷ ("GB-SHN", "53.44170000,-2.7347200")
    ∷ ("GB-SHR", "52.61670000,-2.7213300")
    ∷ ("GB-SKP", "53.37870000,-2.1408000")
    ∷ ("GB-SLF", "53.50060000,-2.4086100")
    ∷ ("GB-SLG", "51.47690000,-0.5479940")
    ∷ ("GB-SLK", "55.59810000,-3.8261700")
    ∷ ("GB-SND", "54.86170000,-1.4617500")
    ∷ ("GB-SOL", "52.40380000,-1.7118500")
    ∷ ("GB-SOM", "51.03390000,-3.0317200")
    ∷ ("GB-SOS", "51.54980000,0.7314600")
    ∷ ("GB-SRY", "51.26080000,-0.3880840")
    ∷ ("GB-STB", "54.80640000,-7.4133700")
    ∷ ("GB-STE", "53.00340000,-2.1670100")
    ∷ ("GB-STG", "56.22130000,-4.2880400")
    ∷ ("GB-STH", "50.91580000,-1.3776000")
    ∷ ("GB-STN", "51.36060000,-0.1765730")
    ∷ ("GB-STS", "52.90240000,-2.0151700")
    ∷ ("GB-STT", "54.53780000,-1.3230900")
    ∷ ("GB-STY", "54.95260000,-1.4420900")
    ∷ ("GB-SWA", "51.62030000,-4.0636400")
    ∷ ("GB-SWD", "51.56700000,-1.7101700")
    ∷ ("GB-SWK", "51.46600000,-0.0655202")
    ∷ ("GB-TAM", "53.45670000,-2.0958000")
    ∷ ("GB-TFW", "52.71520000,-2.4935600")
    ∷ ("GB-THR", "51.50300000,0.3819070")
    ∷ ("GB-TOB", "50.44960000,-3.5680200")
    ∷ ("GB-TOF", "51.69450000,-3.0449000")
    ∷ ("GB-TRF", "53.41470000,-2.3777700")
    ∷ ("GB-TWH", "51.51620000,-0.0262978")
    ∷ ("GB-VGL", "51.44740000,-3.3677200")
    ∷ ("GB-WAR", "52.16800000,-1.5548700")
    ∷ ("GB-WBK", "51.45290000,-1.2949000")
    ∷ ("GB-WDU", "55.98840000,-4.4763500")
    ∷ ("GB-WFT", "51.59490000,-0.0125518")
    ∷ ("GB-WGN", "53.53170000,-2.6057400")
    ∷ ("GB-WIL", "51.32890000,-1.9189100")
    ∷ ("GB-WKF", "53.64570000,-1.3908900")
    ∷ ("GB-WLL", "52.60180000,-1.9518200")
    ∷ ("GB-WLN", "55.89470000,-3.6055600")
    ∷ ("GB-WLV", "52.59580000,-2.1108000")
    ∷ ("GB-WND", "51.45230000,-0.1842080")
    ∷ ("GB-WNM", "51.47690000,-0.7009750")
    ∷ ("GB-WOK", "51.40190000,-0.9079500")
    ∷ ("GB-WOR", "52.21000000,-2.2004000")
    ∷ ("GB-WRL", "53.36860000,-3.0563800")
    ∷ ("GB-WRT", "53.37660000,-2.5546800")
    ∷ ("GB-WRX", "53.01700000,-3.0538000")
    ∷ ("GB-WSM", "51.51150000,-0.1616510")
    ∷ ("GB-WSX", "50.94890000,-0.4579380")
    ∷ ("GB-YOR", "53.94880000,-1.0778500")
    ∷ ("GB-ZET", "60.30970000,-1.2385800")
    ∷ ("GD-01", "12.12240000,-61.6329000")
    ∷ ("GD-02", "12.05500000,-61.6617000")
    ∷ ("GD-03", "12.06810000,-61.7226000")
    ∷ ("GD-04", "12.14460000,-61.7094000")
    ∷ ("GD-05", "12.18900000,-61.6749000")
    ∷ ("GD-06", "12.21470000,-61.6342000")
    ∷ ("GD-10", "12.47330000,-61.4461000")
    ∷ ("GE-AB", "43.14790000,41.0701000")
    ∷ ("GE-AJ", "41.65520000,42.0537000")
    ∷ ("GE-GU", "41.96340000,42.1824000")
    ∷ ("GE-IM", "42.09300000,42.9894000")
    ∷ ("GE-KA", "41.65270000,45.8579000")
    ∷ ("GE-KK", "41.47550000,44.5029000")
    ∷ ("GE-MM", "42.21060000,44.7435000")
    ∷ ("GE-RL", "42.62960000,43.1304000")
    ∷ ("GE-SJ", "41.51490000,43.2296000")
    ∷ ("GE-SK", "42.15860000,43.9997000")
    ∷ ("GE-SZ", "42.54920000,42.3632000")
    ∷ ("GE-TB", "41.71530000,44.8450000")
    ∷ ("GG-X01~", "49.43090000,-2.3662800")
    ∷ ("GH-AA", "5.83921000,0.1053090")
    ∷ ("GH-AH", "6.75219000,-1.3296000")
    ∷ ("GH-BA", "8.16555000,-1.4280500")
    ∷ ("GH-CP", "5.49477000,-1.2655500")
    ∷ ("GH-EP", "6.42584000,-0.4604310")
    ∷ ("GH-NP", "9.27258000,-1.1190500")
    ∷ ("GH-TV", "7.33855000,0.3963250")
    ∷ ("GH-UE", "10.81830000,-0.7797790")
    ∷ ("GH-UW", "10.40400000,-2.1444900")
    ∷ ("GH-WP", "5.70024000,-2.3420600")
    ∷ ("GI-X01~", "36.12910000,-5.3459500")
    ∷ ("GL-KU", "61.54510000,-44.2960000")
    ∷ ("GL-QA", "74.55730000,-49.3311000")
    ∷ ("GL-QE", "66.54870000,-47.3782000")
    ∷ ("GL-SM", "64.05960000,-44.0370000")
    ∷ ("GL-UO", "76.44320000,-68.3611000")
    ∷ ("GM-B", "13.40630000,-16.6831000")
    ∷ ("GM-L", "13.40620000,-15.7046000")
    ∷ ("GM-M", "13.63700000,-14.9804000")
    ∷ ("GM-N", "13.52360000,-15.9799000")
    ∷ ("GM-U", "13.37970000,-14.1857000")
    ∷ ("GM-W", "13.22120000,-16.3138000")
    ∷ []

pub all_places-gb_to_gm : all_places gb_to_gm ≡ true
unfolding all_places
all_places-gb_to_gm = refl
