-- ===== src/Static/Regions/BrToCf.antt =====
-- static/regions.go, BR-AC to CF-VK.
use locate.Prelude.{String, ◌≡◌, refl, true, [], ◌∷◌}
use locate.Prelude.Maps.{Map}
use locate.Clientgeo.Coordinates.{all_places}

abbrev pub br_to_cf : Map String
br_to_cf =
    ("BR-AC", "-8.92850000,-70.2976000")
    ∷ ("BR-AL", "-9.77391000,-36.6917000")
    ∷ ("BR-AM", "-4.21774000,-63.7853000")
    ∷ ("BR-AP", "1.41157000,-51.6842000")
    ∷ ("BR-BA", "-12.36510000,-41.8027000")
    ∷ ("BR-CE", "-5.37602000,-39.3429000")
    ∷ ("BR-DF", "-15.76650000,-47.7902000")
    ∷ ("BR-ES", "-19.69160000,-40.5436000")
    ∷ ("BR-MA", "-5.01897000,-45.3890000")
    ∷ ("BR-MG", "-18.58950000,-44.4808000")
    ∷ ("BR-MS", "-20.67560000,-54.5502000")
    ∷ ("BR-MT", "-13.39260000,-55.9235000")
    ∷ ("BR-PA", "-4.44313000,-52.6491000")
    ∷ ("BR-PB", "-7.34234000,-36.2726000")
    ∷ ("BR-PE", "-8.47283000,-37.2958000")
    ∷ ("BR-PI", "-8.08698000,-43.1974000")
    ∷ ("BR-PR", "-24.66180000,-51.3228000")
    ∷ ("BR-RJ", "-22.40490000,-43.1152000")
    ∷ ("BR-RN", "-5.66157000,-36.5472000")
    ∷ ("BR-RO", "-10.97120000,-63.1439000")
    ∷ ("BR-RR", "1.93803000,-61.3325000")
    ∷ ("BR-RS", "-29.72770000,-53.6560000")
    ∷ ("BR-SC", "-27.03920000,-51.1586000")
    ∷ ("BR-SE", "-10.59180000,-37.3836000")
    ∷ ("BR-SP", "-22.22670000,-48.5206000")
    ∷ ("BR-TO", "-10.22300000,-48.2502000")
    ∷ ("BS-AK", "22.37450000,-74.0024000")
    ∷ ("BS-BI", "25.70740000,-79.2811000")
    ∷ ("BS-BP", "24.07200000,-76.3623000")
    ∷ ("BS-BY", "25.75910000,-77.8527000")
    ∷ ("BS-CE", "25.15880000,-76.1760000")
    ∷ ("BS-CI", "24.25830000,-75.3894000")
    ∷ ("BS-CK", "22.74720000,-74.2405000")
    ∷ ("BS-CO", "26.42150000,-77.1179000")
    ∷ ("BS-CS", "24.47570000,-77.9355000")
    ∷ ("BS-EG", "26.65960000,-78.2150000")
    ∷ ("BS-EX", "23.58550000,-75.9069000")
    ∷ ("BS-FP", "26.53390000,-78.6252000")
    ∷ ("BS-HI", "25.54430000,-76.7641000")
    ∷ ("BS-IN", "21.06000000,-73.3607000")
    ∷ ("BS-LI", "23.03700000,-74.9132000")
    ∷ ("BS-MC", "24.08060000,-77.8018000")
    ∷ ("BS-MG", "22.38490000,-73.0295000")
    ∷ ("BS-MI", "26.29730000,-77.5526000")
    ∷ ("BS-NE", "25.43830000,-76.5900000")
    ∷ ("BS-NO", "26.88730000,-77.6354000")
    ∷ ("BS-NS", "24.82760000,-77.9976000")
    ∷ ("BS-RC", "23.67870000,-74.8408000")
    ∷ ("BS-RI", "22.22960000,-75.7413000")
    ∷ ("BS-SA", "23.78220000,-77.6043000")
    ∷ ("BS-SE", "24.73440000,-76.1967000")
    ∷ ("BS-SO", "26.01790000,-77.2421000")
    ∷ ("BS-SS", "24.05130000,-74.4785000")
    ∷ ("BS-SW", "25.52370000,-76.8334000")
    ∷ ("BS-WG", "26.63890000,-78.9085000")
    ∷ ("BS-X01~", "25.01490000,-77.4356000")
    ∷ ("BT-11", "27.48960000,89.3837000")
    ∷ ("BT-12", "27.03610000,89.5247000")
    ∷ ("BT-13", "27.37110000,89.1233000")
    ∷ ("BT-14", "27.02190000,89.0493000")
    ∷ ("BT-15", "27.48280000,89.6020000")
    ∷ ("BT-21", "27.03160000,90.1671000")
    ∷ ("BT-22", "27.03160000,89.8444000")
    ∷ ("BT-23", "27.67560000,89.8223000")
    ∷ ("BT-24", "27.52060000,90.0915000")
    ∷ ("BT-31", "27.05030000,90.3468000")
    ∷ ("BT-32", "27.44910000,90.4811000")
    ∷ ("BT-33", "27.72190000,90.7042000")
    ∷ ("BT-34", "27.07630000,90.8505000")
    ∷ ("BT-41", "27.26290000,91.7340000")
    ∷ ("BT-42", "27.19560000,91.2014000")
    ∷ ("BT-43", "26.96410000,91.3405000")
    ∷ ("BT-44", "27.69770000,91.0822000")
    ∷ ("BT-45", "26.95090000,91.7328000")
    ∷ ("BT-GA", "28.06410000,89.9133000")
    ∷ ("BT-TY", "27.67600000,91.5121000")
    ∷ ("BW-FR", "-21.16780000,27.5038000")
    ∷ ("BW-GA", "-24.62390000,25.9171000")
    ∷ ("BW-GH", "-22.15550000,22.7086000")
    ∷ ("BW-JW", "-24.57740000,24.7253000")
    ∷ ("BW-KG", "-24.83610000,22.2402000")
    ∷ ("BW-KL", "-24.20010000,26.4263000")
    ∷ ("BW-KW", "-23.86650000,24.4879000")
    ∷ ("BW-LO", "-25.21440000,25.6842000")
    ∷ ("BW-NW", "-19.61410000,23.4709000")
    ∷ ("BW-SO", "-25.00040000,24.3683000")
    ∷ ("BW-SP", "-21.97280000,27.8625000")
    ∷ ("BW-ST", "-20.57520000,26.1919000")
    ∷ ("BY-BR", "52.42890000,25.3826000")
    ∷ ("BY-HM", "53.90050000,27.6424000")
    ∷ ("BY-HO", "52.19690000,29.5189000")
    ∷ ("BY-HR", "53.48550000,25.0839000")
    ∷ ("BY-MA", "53.82410000,30.4041000")
    ∷ ("BY-VI", "55.30730000,28.6747000")
    ∷ ("BZ-BZ", "17.53670000,-88.4189000")
    ∷ ("BZ-CY", "16.99020000,-88.8833000")
    ∷ ("BZ-CZL", "18.16670000,-88.3492000")
    ∷ ("BZ-OW", "17.71220000,-88.8552000")
    ∷ ("BZ-SC", "16.80900000,-88.4963000")
    ∷ ("BZ-TOL", "16.37610000,-88.8117000")
    ∷ ("CA-AB", "55.28160000,-115.0000000")
    ∷ ("CA-BC", "54.69430000,-124.6620000")
    ∷ ("CA-MB", "54.85000000,-97.3828000")
    ∷ ("CA-NB", "46.58220000,-66.4558000")
    ∷ ("CA-NL", "48.65980000,-56.2169000")
    ∷ ("CA-NS", "45.22930000,-62.8113000")
    ∷ ("CA-NT", "64.08310000,-119.9420000")
    ∷ ("CA-NU", "64.38530000,-97.1443000")
    ∷ ("CA-ON", "50.52440000,-84.7943000")
    ∷ ("CA-PE", "46.34170000,-63.3862000")
    ∷ ("CA-QC", "52.25930000,-73.7168000")
    ∷ ("CA-SK", "54.49650000,-105.6820000")
    ∷ ("CA-YT", "63.60880000,-135.7000000")
    ∷ ("CD-BC", "-5.31907000,14.2052000")
    ∷ ("CD-BN", "-4.61778000,18.4474000")
    ∷ ("CD-EQ", "1.21836000,20.4731000")
    ∷ ("CD-KA", "-8.48374000,26.2512000")
    ∷ ("CD-KE", "-4.40511000,24.0842000")
    ∷ ("CD-KN", "-4.49522000,15.8492000")
    ∷ ("CD-KW", "-4.87578000,21.7144000")
    ∷ ("CD-MA", "-3.26017000,26.0336000")
    ∷ ("CD-NK", "-0.65912800,28.5939000")
    ∷ ("CD-OR", "2.40438000,26.7850000")
    ∷ ("CD-SK", "-3.10474000,28.1159000")
    ∷ ("CF-AC", "6.92835000,17.8774000")
    ∷ ("CF-BB", "8.21272000,20.6318000")
    ∷ ("CF-BGF", "4.38332000,18.5457000")
    ∷ ("CF-BK", "5.00365000,21.3019000")
    ∷ ("CF-HK", "7.48168000,22.8492000")
    ∷ ("CF-HM", "6.15735000,25.8510000")
    ∷ ("CF-HS", "4.53240000,15.8888000")
    ∷ ("CF-KB", "7.11882000,19.4051000")
    ∷ ("CF-KG", "5.75536000,19.3143000")
    ∷ ("CF-LB", "4.07603000,17.6819000")
    ∷ ("CF-MB", "5.48563000,23.4601000")
    ∷ ("CF-MP", "5.17659000,17.8020000")
    ∷ ("CF-NM", "5.67426000,15.4564000")
    ∷ ("CF-OP", "6.67901000,16.0108000")
    ∷ ("CF-SE", "3.21418000,16.3383000")
    ∷ ("CF-UK", "5.99454000,20.7064000")
    ∷ ("CF-VK", "9.80170000,22.2437000")
    ∷ []

pub all_places-br_to_cf : all_places br_to_cf ≡ true
unfolding all_places
all_places-br_to_cf = refl
