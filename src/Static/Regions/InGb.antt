-- ===== src/Static/Regions/InGb.antt =====
-- static/regions.go, GB-ABD to GB-NTL.
use locate.Prelude.{String, ◌≡◌, refl, true, [], ◌∷◌}
use locate.Prelude.Maps.{Map}
use locate.Clientgeo.Coordinates.{all_places}

abbrev pub in_gb : Map String
in_gb =
    ("GB-ABD", "57.23600000,-2.7778500")
    ∷ ("GB-ABE", "57.16760000,-2.1981400")
    ∷ ("GB-AGB", "56.22960000,-5.1433900")
    ∷ ("GB-AGY", "53.29960000,-4.3787000")
    ∷ ("GB-ANS", "56.74580000,-2.9155000")
    ∷ ("GB-ANT", "54.69260000,-6.2605700")
    ∷ ("GB-ARD", "54.51640000,-5.6270500")
    ∷ ("GB-ARM", "54.33040000,-6.6214400")
    ∷ ("GB-BAS", "51.34760000,-2.4959100")
    ∷ ("GB-BBD", "53.70500000,-2.4429100")
    ∷ ("GB-BDF", "52.17880000,-0.4700040")
    ∷ ("GB-BDG", "51.53790000,0.1339510")
    ∷ ("GB-BEN", "51.55780000,-0.2522660")
    ∷ ("GB-BEX", "51.45460000,0.1524770")
    ∷ ("GB-BFS", "54.61130000,-5.9368400")
    ∷ ("GB-BGE", "51.54140000,-3.6068700")
    ∷ ("GB-BGW", "51.77190000,-3.1998000")
    ∷ ("GB-BIR", "52.47820000,-1.8161400")
    ∷ ("GB-BKM", "51.77170000,-0.8065990")
    ∷ ("GB-BLA", "54.90030000,-6.2275300")
    ∷ ("GB-BLY", "55.05250000,-6.4032000")
    ∷ ("GB-BMH", "50.73780000,-1.8629700")
    ∷ ("GB-BNB", "54.34660000,-6.1715400")
    ∷ ("GB-BNE", "51.61150000,-0.2048050")
    ∷ ("GB-BNH", "50.84210000,-0.1065000")
    ∷ ("GB-BNS", "53.53470000,-1.4568800")
    ∷ ("GB-BOL", "53.58870000,-2.4287600")
    ∷ ("GB-BPL", "53.84060000,-3.0046900")
    ∷ ("GB-BRC", "51.39290000,-0.7639670")
    ∷ ("GB-BRD", "53.84660000,-1.7838400")
    ∷ ("GB-BRY", "51.36520000,0.0463722")
    ∷ ("GB-BST", "51.46240000,-2.6010700")
    ∷ ("GB-BUR", "53.58270000,-2.3087800")
    ∷ ("GB-CAM", "52.34760000,0.0158056")
    ∷ ("GB-CAY", "51.64070000,-3.1828600")
    ∷ ("GB-CBF", "52.02360000,-0.3763410")
    ∷ ("GB-CGN", "52.17930000,-4.1752700")
    ∷ ("GB-CGV", "54.48840000,-6.3970600")
    ∷ ("GB-CHE", "53.23960000,-2.2136400")
    ∷ ("GB-CHW", "53.16710000,-2.7677400")
    ∷ ("GB-CKF", "54.74310000,-5.7989900")
    ∷ ("GB-CKT", "54.62620000,-6.7091800")
    ∷ ("GB-CLD", "53.74460000,-1.9518200")
    ∷ ("GB-CLK", "56.14310000,-3.7077900")
    ∷ ("GB-CLR", "55.05620000,-6.6887900")
    ∷ ("GB-CMA", "54.63680000,-2.8922200")
    ∷ ("GB-CMD", "51.54910000,-0.1505410")
    ∷ ("GB-CMN", "51.86220000,-4.2048500")
    ∷ ("GB-CON", "50.44070000,-4.7526700")
    ∷ ("GB-COV", "52.40680000,-1.5318700")
    ∷ ("GB-CRF", "51.50490000,-3.1785000")
    ∷ ("GB-CRY", "51.36250000,-0.0752612")
    ∷ ("GB-CSR", "54.53600000,-5.8540700")
    ∷ ("GB-CWY", "53.12740000,-3.7349000")
    ∷ ("GB-DAL", "54.52020000,-1.5393800")
    ∷ ("GB-DEN", "53.06650000,-3.3402400")
    ∷ ("GB-DER", "52.89040000,-1.4715700")
    ∷ ("GB-DEV", "50.80080000,-3.8584200")
    ∷ ("GB-DGN", "54.47910000,-6.9461300")
    ∷ ("GB-DGY", "55.09980000,-4.0155500")
    ∷ ("GB-DNC", "53.52270000,-1.0849300")
    ∷ ("GB-DND", "56.48680000,-2.9493400")
    ∷ ("GB-DOR", "50.85690000,-2.3110300")
    ∷ ("GB-DOW", "54.36160000,-5.8095500")
    ∷ ("GB-DRY", "54.96940000,-7.2132900")
    ∷ ("GB-DUD", "52.47280000,-2.1138000")
    ∷ ("GB-DUR", "54.69550000,-1.7996500")
    ∷ ("GB-EAL", "51.51980000,-0.3212540")
    ∷ ("GB-EAY", "55.50100000,-4.2932900")
    ∷ ("GB-EDH", "55.91320000,-3.2645200")
    ∷ ("GB-EDU", "55.95440000,-4.2021900")
    ∷ ("GB-ELN", "55.94770000,-2.7108000")
    ∷ ("GB-ELS", "58.11030000,-6.7458700")
    ∷ ("GB-ENF", "51.64400000,-0.0911453")
    ∷ ("GB-ERW", "55.76560000,-4.3684400")
    ∷ ("GB-ERY", "53.90470000,-0.4802240")
    ∷ ("GB-ESS", "51.77090000,0.4956560")
    ∷ ("GB-ESX", "50.95370000,0.3720630")
    ∷ ("GB-FAL", "55.98110000,-3.7583100")
    ∷ ("GB-FER", "54.37980000,-7.6604700")
    ∷ ("GB-FIF", "56.22010000,-3.1616600")
    ∷ ("GB-FLN", "53.18150000,-3.1470900")
    ∷ ("GB-GAT", "54.93910000,-1.6681600")
    ∷ ("GB-GLG", "55.83710000,-4.2133700")
    ∷ ("GB-GLS", "51.81530000,-2.1486200")
    ∷ ("GB-GRE", "51.46340000,0.0473282")
    ∷ ("GB-GWN", "52.84840000,-3.9202900")
    ∷ ("GB-HAL", "53.33100000,-2.6872700")
    ∷ ("GB-HAM", "51.12860000,-1.2381700")
    ∷ ("GB-HAV", "51.56340000,0.2421100")
    ∷ ("GB-HCK", "51.55230000,-0.0523427")
    ∷ ("GB-HEF", "52.08070000,-2.7369100")
    ∷ ("GB-HIL", "51.53380000,-0.4325000")
    ∷ ("GB-HLD", "57.41230000,-4.8124700")
    ∷ ("GB-HMF", "51.48940000,-0.2078500")
    ∷ ("GB-HNS", "51.47300000,-0.3390690")
    ∷ ("GB-HPL", "54.66250000,-1.2766200")
    ∷ ("GB-HRT", "51.81130000,-0.2654300")
    ∷ ("GB-HRW", "51.58940000,-0.3332950")
    ∷ ("GB-HRY", "51.58340000,-0.0963323")
    ∷ ("GB-IOS", "50.44070000,-4.7526700")
    ∷ ("GB-IOW", "50.68080000,-1.3158800")
    ∷ ("GB-ISL", "51.53960000,-0.0980376")
    ∷ ("GB-IVC", "55.89830000,-4.7384300")
    ∷ ("GB-KEC", "51.49190000,-0.1795570")
    ∷ ("GB-KEN", "51.19790000,0.7189150")
    ∷ ("GB-KHL", "53.75770000,-0.3726460")
    ∷ ("GB-KIR", "53.62180000,-1.7394400")
    ∷ ("GB-KTT", "51.39250000,-0.2699000")
    ∷ ("GB-KWL", "53.41450000,-2.8341900")
    ∷ ("GB-LAN", "53.85990000,-2.5445800")
    ∷ ("GB-LBH", "51.46040000,-0.1086700")
    ∷ ("GB-LCE", "52.61140000,-1.1183000")
    ∷ ("GB-LDS", "53.81060000,-1.4778800")
    ∷ ("GB-LEW", "51.44180000,-0.0112858")
    ∷ ("GB-LIN", "53.11520000,-0.2224740")
    ∷ ("GB-LIV", "53.43120000,-2.9327000")
    ∷ ("GB-LMV", "54.99230000,-6.9714000")
    ∷ ("GB-LND", "51.51690000,-0.0868102")
    ∷ ("GB-LRN", "54.86100000,-5.8958700")
    ∷ ("GB-LSB", "54.51890000,-6.0822600")
    ∷ ("GB-LUT", "51.87630000,-0.4062490")
    ∷ ("GB-MAN", "53.45970000,-2.2667800")
    ∷ ("GB-MDB", "54.53640000,-1.2397100")
    ∷ ("GB-MDW", "51.35410000,0.5842210")
    ∷ ("GB-MFT", "54.81660000,-6.7199100")
    ∷ ("GB-MIK", "52.05710000,-0.7260100")
    ∷ ("GB-MLN", "55.82410000,-3.0659200")
    ∷ ("GB-MON", "51.77440000,-2.9022600")
    ∷ ("GB-MRT", "51.40870000,-0.1815080")
    ∷ ("GB-MRY", "57.46360000,-3.2301300")
    ∷ ("GB-MTY", "51.74610000,-3.3567800")
    ∷ ("GB-MYL", "55.16390000,-6.2635700")
    ∷ ("GB-NAY", "55.71130000,-4.7108000")
    ∷ ("GB-NBL", "55.31520000,-2.0705700")
    ∷ ("GB-NDN", "54.64760000,-5.7177200")
    ∷ ("GB-NEL", "53.51680000,-0.1301930")
    ∷ ("GB-NET", "54.99310000,-1.5994000")
    ∷ ("GB-NFK", "52.66020000,0.9531640")
    ∷ ("GB-NGM", "52.93520000,-1.1659200")
    ∷ ("GB-NLK", "55.86940000,-3.9392000")
    ∷ ("GB-NLN", "53.57410000,-0.5709420")
    ∷ ("GB-NSM", "51.41090000,-2.7915800")
    ∷ ("GB-NTA", "54.71730000,-5.9810600")
    ∷ ("GB-NTH", "52.30830000,-0.8824130")
    ∷ ("GB-NTL", "51.64590000,-3.7393500")
    ∷ []

pub all_places-in_gb : all_places in_gb ≡ true
unfolding all_places
all_places-in_gb = refl
