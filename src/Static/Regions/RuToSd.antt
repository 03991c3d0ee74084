-- ===== src/Static/Regions/RuToSd.antt =====
-- static/regions.go, RU-AD to SD-SI.
use locate.Prelude.{String, ◌≡◌, refl, true, [], ◌∷◌}
use locate.Prelude.Maps.{Map}
use locate.Clientgeo.Coordinates.{all_places}

abbrev pub ru_to_sd : Map String
ru_to_sd =
    ("RU-AD", "44.46580000,40.1293000")
    ∷ ("RU-AL", "50.97820000,86.9370000")
    ∷ ("RU-ALT", "52.42680000,82.8667000")
    ∷ ("RU-AMU", "52.92360000,128.3540000")
    ∷ ("RU-ARK", "63.31320000,41.9939000")
    ∷ ("RU-AST", "47.03340000,47.7227000")
    ∷ ("RU-BA", "54.20860000,56.5575000")
    ∷ ("RU-BEL", "50.87570000,37.2770000")
    ∷ ("RU-BRY", "53.08680000,33.2803000")
    ∷ ("RU-BU", "52.90610000,109.3410000")
    ∷ ("RU-CE", "43.21530000,45.7570000")
    ∷ ("RU-CHE", "54.11310000,60.2383000")
    ∷ ("RU-CHU", "66.75170000,170.5160000")
    ∷ ("RU-CU", "55.48830000,47.1662000")
    ∷ ("RU-DA", "42.36000000,47.1424000")
    ∷ ("RU-IN", "43.36610000,44.8468000")
    ∷ ("RU-IRK", "56.82550000,105.9660000")
    ∷ ("RU-IVA", "57.12130000,41.6244000")
    ∷ ("RU-KAM", "56.53250000,160.1870000")
    ∷ ("RU-KB", "43.37570000,43.3982000")
    ∷ ("RU-KC", "43.70730000,41.6866000")
    ∷ ("RU-KEM", "54.64620000,87.1676000")
    ∷ ("RU-KGD", "54.66360000,21.2287000")
    ∷ ("RU-KGN", "55.43160000,65.3505000")
    ∷ ("RU-KHA", "57.02320000,135.4430000")
    ∷ ("RU-KHM", "61.43150000,71.3806000")
    ∷ ("RU-KIR", "58.19260000,50.1112000")
    ∷ ("RU-KK", "53.36430000,89.8405000")
    ∷ ("RU-KL", "46.51910000,45.4681000")
    ∷ ("RU-KLU", "54.24210000,35.3416000")
    ∷ ("RU-KO", "64.11940000,55.8183000")
    ∷ ("RU-KOS", "58.38820000,43.4689000")
    ∷ ("RU-KR", "63.52950000,33.1446000")
    ∷ ("RU-KRS", "51.73580000,36.2921000")
    ∷ ("RU-KYA", "65.56020000,95.2029000")
    ∷ ("RU-LEN", "59.99050000,32.7736000")
    ∷ ("RU-LIP", "52.74620000,39.2073000")
    ∷ ("RU-MAG", "62.62570000,153.7970000")
    ∷ ("RU-ME", "56.54070000,47.9131000")
    ∷ ("RU-MOS", "55.71770000,37.6188000")
    ∷ ("RU-MUR", "67.96090000,34.3212000")
    ∷ ("RU-NEN", "67.82710000,56.2877000")
    ∷ ("RU-NGR", "58.42280000,32.9454000")
    ∷ ("RU-NIZ", "56.13840000,44.7751000")
    ∷ ("RU-NVS", "55.31390000,80.0832000")
    ∷ ("RU-OMS", "56.04710000,73.3995000")
    ∷ ("RU-ORL", "52.87780000,36.4166000")
    ∷ ("RU-PER", "58.87350000,56.5878000")
    ∷ ("RU-PNZ", "53.05620000,44.8159000")
    ∷ ("RU-PRI", "44.86220000,134.5940000")
    ∷ ("RU-PSK", "57.24490000,29.1229000")
    ∷ ("RU-ROS", "47.99130000,41.2613000")
    ∷ ("RU-RYA", "54.33630000,40.6258000")
    ∷ ("RU-SA", "65.59640000,130.9890000")
    ∷ ("RU-SAK", "47.34790000,152.4670000")
    ∷ ("RU-SAM", "53.17830000,50.4377000")
    ∷ ("RU-SAR", "51.67420000,46.6368000")
    ∷ ("RU-SE", "42.99690000,44.1653000")
    ∷ ("RU-SMO", "54.67260000,33.0803000")
    ∷ ("RU-SPE", "59.80640000,30.2901000")
    ∷ ("RU-STA", "44.98100000,43.2791000")
    ∷ ("RU-SVE", "58.89520000,61.7078000")
    ∷ ("RU-TAM", "52.78080000,41.5945000")
    ∷ ("RU-TOM", "58.44670000,82.2299000")
    ∷ ("RU-TUL", "54.06680000,37.4161000")
    ∷ ("RU-TVE", "57.02970000,34.5445000")
    ∷ ("RU-TY", "51.60510000,93.9927000")
    ∷ ("RU-UD", "57.34330000,52.7957000")
    ∷ ("RU-ULY", "53.92480000,47.3773000")
    ∷ ("RU-VGG", "49.50140000,44.4488000")
    ∷ ("RU-VLA", "55.89660000,40.6207000")
    ∷ ("RU-VOR", "50.77740000,40.5223000")
    ∷ ("RU-X01~", "68.79990000,67.2613000")
    ∷ ("RU-YAN", "65.41170000,75.1874000")
    ∷ ("RU-YAR", "57.73290000,39.2547000")
    ∷ ("RU-YEV", "48.64000000,132.7580000")
    ∷ ("RU-ZAB", "52.15900000,116.5590000")
    ∷ ("RW-01", "-1.92643000,30.1253000")
    ∷ ("RW-02", "-1.69059000,30.4223000")
    ∷ ("RW-03", "-1.61148000,29.8587000")
    ∷ ("RW-04", "-2.13156000,29.2644000")
    ∷ ("RW-05", "-2.38388000,29.6424000")
    ∷ ("SA-01", "23.34320000,45.1404000")
    ∷ ("SA-02", "21.43480000,40.2542000")
    ∷ ("SA-03", "24.92790000,39.4378000")
    ∷ ("SA-04", "22.98750000,50.1714000")
    ∷ ("SA-05", "25.94780000,43.2716000")
    ∷ ("SA-06", "27.26520000,41.7076000")
    ∷ ("SA-07", "27.91460000,36.8014000")
    ∷ ("SA-08", "29.22700000,43.3124000")
    ∷ ("SA-09", "17.30280000,42.7260000")
    ∷ ("SA-10", "18.29310000,45.6917000")
    ∷ ("SA-11", "20.16050000,41.4165000")
    ∷ ("SA-12", "29.55890000,38.3651000")
    ∷ ("SA-14", "19.34840000,42.9503000")
    ∷ ("SB-CE", "-9.14003000,159.8250000")
    ∷ ("SB-CH", "-7.40991000,157.5470000")
    ∷ ("SB-CT", "-9.44658000,160.0190000")
    ∷ ("SB-GU", "-9.61695000,160.2090000")
    ∷ ("SB-IS", "-8.44695000,159.6190000")
    ∷ ("SB-MK", "-10.27820000,161.7440000")
    ∷ ("SB-ML", "-9.75831000,161.9560000")
    ∷ ("SB-RB", "-11.62040000,160.2730000")
    ∷ ("SB-TE", "-12.27700000,168.8120000")
    ∷ ("SC-01", "-4.68304000,55.5208000")
    ∷ ("SC-02", "-4.71357000,55.4923000")
    ∷ ("SC-03", "-4.58794000,55.4543000")
    ∷ ("SC-04", "-4.70356000,55.5138000")
    ∷ ("SC-05", "-4.74560000,55.5118000")
    ∷ ("SC-06", "-4.75461000,55.4918000")
    ∷ ("SC-07", "-4.32918000,55.7600000")
    ∷ ("SC-08", "-4.60295000,55.4317000")
    ∷ ("SC-09", "-4.63198000,55.4483000")
    ∷ ("SC-10", "-4.62448000,55.4092000")
    ∷ ("SC-11", "-4.66702000,55.4988000")
    ∷ ("SC-12", "-4.56942000,55.4433000")
    ∷ ("SC-13", "-4.68654000,55.4738000")
    ∷ ("SC-14", "-4.34469000,55.7435000")
    ∷ ("SC-15", "-4.35949000,55.8393000")
    ∷ ("SC-16", "-4.60746000,55.4533000")
    ∷ ("SC-17", "-4.61246000,55.4428000")
    ∷ ("SC-18", "-4.63449000,55.4633000")
    ∷ ("SC-19", "-4.65451000,55.4693000")
    ∷ ("SC-20", "-4.67403000,55.5163000")
    ∷ ("SC-21", "-4.65351000,55.4262000")
    ∷ ("SC-22", "-4.62247000,55.4388000")
    ∷ ("SC-23", "-4.79065000,55.5173000")
    ∷ ("SC-24", "-4.65751000,55.4808000")
    ∷ ("SC-25", "-4.64950000,55.4828000")
    ∷ ("SC-X02~", "-9.73919000,46.4946000")
    ∷ ("SD-DE", "12.19830000,23.3467000")
    ∷ ("SD-DN", "16.46020000,25.5060000")
    ∷ ("SD-DS", "11.02630000,26.5295000")
    ∷ ("SD-DW", "14.21090000,23.0863000")
    ∷ ("SD-GD", "14.02830000,35.0351000")
    ∷ ("SD-GZ", "14.67710000,33.3362000")
    ∷ ("SD-KA", "15.62650000,35.5979000")
    ∷ ("SD-KH", "15.73380000,32.9823000")
    ∷ ("SD-KN", "14.52950000,29.6122000")
    ∷ ("SD-KS", "11.45040000,29.8300000")
    ∷ ("SD-NB", "11.16570000,34.1155000")
    ∷ ("SD-NO", "19.31510000,28.8329000")
    ∷ ("SD-NR", "17.55800000,33.7623000")
    ∷ ("SD-NW", "13.59510000,32.3633000")
    ∷ ("SD-RS", "19.52890000,35.8873000")
    ∷ ("SD-SI", "13.21000000,34.2520000")
    ∷ []

pub all_places-ru_to_sd : all_places ru_to_sd ≡ true
unfolding all_places
all_places-ru_to_sd = refl
