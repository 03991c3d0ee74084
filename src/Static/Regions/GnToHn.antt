-- ===== src/Static/Regions/GnToHn.antt =====
-- static/regions.go, GN-BE to HN-YO.
use locate.Prelude.{String, ◌≡◌, refl, true, [], ◌∷◌}
use locate.Prelude.Maps.{Map}
use locate.Clientgeo.Coordinates.{all_places}

abbrev pub gn_to_hn : Map String
gn_to_hn =
    ("GN-BE", "8.81391000,-8.4072600")
    ∷ ("GN-BF", "10.39940000,-14.0764000")
    ∷ ("GN-BK", "11.16740000,-14.3088000")
    ∷ ("GN-C", "9.53920000,-13.6847000")
    ∷ ("GN-CO", "9.79103000,-13.3482000")
    ∷ ("GN-DB", "10.77740000,-11.2004000")
    ∷ ("GN-DI", "11.56090000,-10.6749000")
    ∷ ("GN-DL", "10.83270000,-12.2144000")
    ∷ ("GN-DU", "10.11370000,-13.4680000")
    ∷ ("GN-FA", "9.98517000,-10.8810000")
    ∷ ("GN-FO", "9.38543000,-13.0624000")
    ∷ ("GN-FR", "10.47320000,-13.4957000")
    ∷ ("GN-GA", "11.74530000,-13.3943000")
    ∷ ("GN-GU", "8.70329000,-10.2232000")
    ∷ ("GN-K", "10.13190000,-9.1262400")
    ∷ ("GN-KB", "11.61620000,-11.7074000")
    ∷ ("GN-KD", "10.05520000,-12.7298000")
    ∷ ("GN-KE", "9.33012000,-8.9050400")
    ∷ ("GN-KN", "12.35370000,-13.1823000")
    ∷ ("GN-KO", "10.72210000,-10.0204000")
    ∷ ("GN-KS", "9.25638000,-9.8913800")
    ∷ ("GN-LA", "11.51500000,-12.3404000")
    ∷ ("GN-LE", "11.46870000,-12.6338000")
    ∷ ("GN-LO", "7.85522000,-8.3335200")
    ∷ ("GN-MC", "8.54658000,-9.3198600")
    ∷ ("GN-MD", "10.72210000,-8.6653700")
    ∷ ("GN-ML", "12.02180000,-12.1222000")
    ∷ ("GN-MM", "10.34420000,-11.8934000")
    ∷ ("GN-NZ", "8.05075000,-8.7383800")
    ∷ ("GN-PI", "10.93410000,-12.6200000")
    ∷ ("GN-SI", "11.57010000,-9.3936000")
    ∷ ("GN-TE", "10.91560000,-13.3113000")
    ∷ ("GN-TO", "11.45030000,-11.4677000")
    ∷ ("GN-YO", "7.61555000,-9.0801900")
    ∷ ("GQ-AN", "-1.44699000,5.6293300")
    ∷ ("GQ-BN", "3.66783000,8.7950800")
    ∷ ("GQ-BS", "3.42557000,8.6429100")
    ∷ ("GQ-CS", "1.46235000,10.4494000")
    ∷ ("GQ-KN", "2.04853000,10.8707000")
    ∷ ("GQ-LI", "1.30717000,9.7992000")
    ∷ ("GQ-WN", "1.33965000,10.9267000")
    ∷ ("GR-69", "40.29220000,24.1925000")
    ∷ ("GR-A", "41.10430000,25.2076000")
    ∷ ("GR-A1", "38.06260000,23.7997000")
    ∷ ("GR-B", "40.88360000,22.8519000")
    ∷ ("GR-C", "40.38340000,21.4551000")
    ∷ ("GR-D", "39.63650000,20.6925000")
    ∷ ("GR-E", "39.53220000,22.1914000")
    ∷ ("GR-F", "38.24190000,20.5554000")
    ∷ ("GR-G", "38.02990000,21.7273000")
    ∷ ("GR-H", "38.63730000,22.6102000")
    ∷ ("GR-J", "37.33190000,22.3501000")
    ∷ ("GR-K", "39.95310000,25.2262000")
    ∷ ("GR-L", "37.05380000,25.4867000")
    ∷ ("GR-M", "35.19210000,25.0652000")
    ∷ ("GS-X01~", "-59.45480000,-27.1942000")
    ∷ ("GT-AV", "15.64550000,-90.1072000")
    ∷ ("GT-BV", "15.07660000,-90.3946000")
    ∷ ("GT-CM", "14.73130000,-90.8859000")
    ∷ ("GT-CQ", "14.66680000,-89.4399000")
    ∷ ("GT-ES", "14.16740000,-91.0243000")
    ∷ ("GT-GU", "14.60060000,-90.4872000")
    ∷ ("GT-HU", "15.63690000,-91.5504000")
    ∷ ("GT-IZ", "15.52460000,-88.9414000")
    ∷ ("GT-JA", "14.62550000,-89.9727000")
    ∷ ("GT-JU", "14.23840000,-89.8946000")
    ∷ ("GT-PE", "16.88800000,-90.0321000")
    ∷ ("GT-PR", "14.90380000,-90.0911000")
    ∷ ("GT-QC", "15.50490000,-90.8819000")
    ∷ ("GT-QZ", "14.72690000,-91.7831000")
    ∷ ("GT-RE", "14.39570000,-91.8364000")
    ∷ ("GT-SA", "14.61390000,-90.7545000")
    ∷ ("GT-SM", "15.03110000,-91.9311000")
    ∷ ("GT-SO", "14.73720000,-91.2727000")
    ∷ ("GT-SR", "14.16510000,-90.3389000")
    ∷ ("GT-SU", "14.51820000,-91.3803000")
    ∷ ("GT-TO", "15.04740000,-91.3884000")
    ∷ ("GT-ZA", "15.03290000,-89.5127000")
    ∷ ("GU-X01~", "13.47330000,144.7890000")
    ∷ ("GW-BA", "12.14290000,-14.7070000")
    ∷ ("GW-BL", "11.51870000,-15.9620000")
    ∷ ("GW-BM", "11.81080000,-15.7839000")
    ∷ ("GW-BS", "11.89190000,-15.6119000")
    ∷ ("GW-CA", "12.19000000,-16.0628000")
    ∷ ("GW-GA", "12.15690000,-14.1098000")
    ∷ ("GW-OI", "12.27940000,-15.3013000")
    ∷ ("GW-QU", "11.55760000,-15.1905000")
    ∷ ("GW-TO", "11.29320000,-14.9293000")
    ∷ ("GY-BA", "7.74233000,-59.7502000")
    ∷ ("GY-CU", "7.16881000,-58.8206000")
    ∷ ("GY-DE", "6.54128000,-58.3773000")
    ∷ ("GY-EB", "6.56415000,-58.0942000")
    ∷ ("GY-ES", "6.23705000,-57.8277000")
    ∷ ("GY-MA", "2.56716000,-57.4923000")
    ∷ ("GY-PM", "6.18361000,-59.9838000")
    ∷ ("GY-PT", "4.93151000,-59.2238000")
    ∷ ("GY-UD", "2.66930000,-58.9648000")
    ∷ ("GY-UT", "5.36479000,-58.2455000")
    ∷ ("HK-X01~", "22.27410000,114.1440000")
    ∷ ("HK-X02~", "22.26990000,114.1780000")
    ∷ ("HK-X03~", "22.27060000,114.2130000")
    ∷ ("HK-X04~", "22.24020000,114.2040000")
    ∷ ("HK-X05~", "22.31280000,114.1690000")
    ∷ ("HK-X06~", "22.32680000,114.1900000")
    ∷ ("HK-X07~", "22.33310000,114.1640000")
    ∷ ("HK-X08~", "22.34320000,114.2150000")
    ∷ ("HK-X09~", "22.31590000,114.2250000")
    ∷ ("HK-X10~", "22.34630000,114.2490000")
    ∷ ("HK-X11~", "22.38070000,114.2000000")
    ∷ ("HK-X12~", "22.35100000,114.1400000")
    ∷ ("HK-X13~", "22.38690000,114.1200000")
    ∷ ("HK-X14~", "22.38460000,113.9910000")
    ∷ ("HK-X15~", "22.44150000,114.0580000")
    ∷ ("HK-X16~", "22.50630000,114.1480000")
    ∷ ("HK-X17~", "22.44470000,114.1540000")
    ∷ ("HK-X18~", "22.25970000,113.9540000")
    ∷ ("HM-X01~", "-53.10360000,73.5247000")
    ∷ ("HN-AT", "15.63430000,-87.0783000")
    ∷ ("HN-CH", "13.25870000,-87.1074000")
    ∷ ("HN-CL", "15.77860000,-85.7236000")
    ∷ ("HN-CM", "14.65770000,-87.6780000")
    ∷ ("HN-CP", "14.89090000,-88.9362000")
    ∷ ("HN-CR", "15.53360000,-88.0359000")
    ∷ ("HN-EP", "14.03700000,-86.5592000")
    ∷ ("HN-FM", "14.34740000,-87.1815000")
    ∷ ("HN-GD", "15.12190000,-84.3701000")
    ∷ ("HN-IB", "16.10480000,-86.9319000")
    ∷ ("HN-IN", "14.39810000,-88.1754000")
    ∷ ("HN-LE", "14.44080000,-88.6478000")
    ∷ ("HN-LP", "14.13800000,-87.9144000")
    ∷ ("HN-OC", "14.52480000,-89.0399000")
    ∷ ("HN-OL", "14.80520000,-85.9937000")
    ∷ ("HN-SB", "15.05270000,-88.3300000")
    ∷ ("HN-VA", "13.57530000,-87.5992000")
    ∷ ("HN-YO", "15.23300000,-87.2060000")
    ∷ []

pub all_places-gn_to_hn : all_places gn_to_hn ≡ true
unfolding all_places
all_places-gn_to_hn = refl
