-- ===== src/Static/Regions/KzToLu.antt =====
-- static/regions.go, KZ-AKT to LU-L.
use locate.Prelude.{String, ◌≡◌, refl, true, [], ◌∷◌}
use locate.Prelude.Maps.{Map}
use locate.Clientgeo.Coordinates.{all_places}

abbrev pub kz_to_lu : Map String
kz_to_lu =
    ("KZ-AKT", "48.02880000,58.9373000")
    ∷ ("KZ-ALA", "43.27090000,76.9424000")
    ∷ ("KZ-AST", "51.15030000,71.4538000")
    ∷ ("KZ-ATY", "47.77440000,51.7585000")
    ∷ ("KZ-KAR", "48.08230000,70.1925000")
    ∷ ("KZ-KUS", "51.28540000,64.1291000")
    ∷ ("KZ-MAN", "44.03510000,53.8538000")
    ∷ ("KZ-PAV", "52.20760000,76.3751000")
    ∷ ("KZ-SEV", "54.45280000,69.0682000")
    ∷ ("KZ-VOS", "48.34050000,81.9768000")
    ∷ ("KZ-YUZ", "42.71870000,68.7533000")
    ∷ ("KZ-ZAP", "49.89090000,50.5145000")
    ∷ ("KZ-ZHA", "44.31520000,72.4888000")
    ∷ ("LA-AT", "14.78480000,106.8660000")
    ∷ ("LA-BK", "20.30440000,100.6720000")
    ∷ ("LA-BL", "18.53800000,104.0390000")
    ∷ ("LA-CH", "14.10930000,106.0030000")
    ∷ ("LA-HO", "20.37290000,104.0390000")
    ∷ ("LA-KH", "17.61510000,105.3430000")
    ∷ ("LA-LM", "20.90990000,101.1480000")
    ∷ ("LA-LP", "20.07880000,102.5490000")
    ∷ ("LA-OU", "20.16100000,101.5480000")
    ∷ ("LA-PH", "21.61530000,102.2450000")
    ∷ ("LA-SL", "15.76140000,106.2480000")
    ∷ ("LA-SV", "16.49370000,105.7710000")
    ∷ ("LA-VI", "18.10300000,102.5630000")
    ∷ ("LA-XA", "17.75020000,101.1430000")
    ∷ ("LA-XE", "15.64140000,106.9820000")
    ∷ ("LA-XI", "19.51130000,103.4600000")
    ∷ ("LB-AS", "34.39330000,36.0424000")
    ∷ ("LB-BA", "33.88490000,35.5093000")
    ∷ ("LB-BI", "34.04940000,36.1086000")
    ∷ ("LB-JA", "33.26610000,35.2966000")
    ∷ ("LB-JL", "33.92910000,35.6942000")
    ∷ ("LB-NA", "33.33030000,35.5666000")
    ∷ ("LC-01", "13.93500000,-61.0189000")
    ∷ ("LC-02", "14.00040000,-60.9749000")
    ∷ ("LC-03", "13.79120000,-61.0296000")
    ∷ ("LC-04", "14.01760000,-60.9062000")
    ∷ ("LC-05", "13.94250000,-60.9052000")
    ∷ ("LC-06", "14.06640000,-60.9446000")
    ∷ ("LC-07", "13.76760000,-60.9867000")
    ∷ ("LC-08", "13.81590000,-60.9180000")
    ∷ ("LC-09", "13.86740000,-60.9180000")
    ∷ ("LC-10", "13.85450000,-61.0447000")
    ∷ ("LC-11", "13.77620000,-60.9438000")
    ∷ ("LI-01", "47.07010000,9.5060300")
    ∷ ("LI-02", "47.20580000,9.5338300")
    ∷ ("LI-03", "47.20520000,9.5021300")
    ∷ ("LI-04", "47.22140000,9.5382800")
    ∷ ("LI-05", "47.18750000,9.5494000")
    ∷ ("LI-06", "47.24580000,9.5188200")
    ∷ ("LI-07", "47.18190000,9.5138100")
    ∷ ("LI-08", "47.24200000,9.5382800")
    ∷ ("LI-09", "47.10010000,9.5266000")
    ∷ ("LI-10", "47.12840000,9.5485800")
    ∷ ("LI-11", "47.14690000,9.5182600")
    ∷ ("LK-11", "6.85989000,80.0349000")
    ∷ ("LK-12", "7.12599000,80.0106000")
    ∷ ("LK-13", "6.58989000,80.1374000")
    ∷ ("LK-21", "7.30186000,80.7180000")
    ∷ ("LK-22", "7.60919000,80.7391000")
    ∷ ("LK-23", "6.93625000,80.6991000")
    ∷ ("LK-31", "6.19513000,80.2387000")
    ∷ ("LK-32", "6.16548000,80.5542000")
    ∷ ("LK-33", "6.27040000,81.1619000")
    ∷ ("LK-41", "9.50669000,79.6933000")
    ∷ ("LK-42", "9.38429000,80.3341000")
    ∷ ("LK-43", "8.84371000,80.0854000")
    ∷ ("LK-44", "8.89756000,80.4790000")
    ∷ ("LK-45", "9.24043000,80.5667000")
    ∷ ("LK-51", "7.85079000,81.4613000")
    ∷ ("LK-52", "7.16320000,81.7242000")
    ∷ ("LK-53", "8.56202000,81.0848000")
    ∷ ("LK-61", "7.71298000,80.2369000")
    ∷ ("LK-62", "7.94944000,79.9111000")
    ∷ ("LK-71", "8.29198000,80.4711000")
    ∷ ("LK-72", "7.99997000,81.0480000")
    ∷ ("LK-81", "7.05184000,81.0255000")
    ∷ ("LK-82", "6.72240000,81.3431000")
    ∷ ("LK-91", "6.57933000,80.5623000")
    ∷ ("LK-92", "7.08797000,80.3478000")
    ∷ ("LR-BG", "6.99958000,-9.8060400")
    ∷ ("LR-BM", "6.75329000,-10.7753000")
    ∷ ("LR-CM", "7.09577000,-10.9953000")
    ∷ ("LR-GB", "6.11786000,-9.7288700")
    ∷ ("LR-GG", "5.87286000,-8.1641600")
    ∷ ("LR-GK", "4.87073000,-8.2562200")
    ∷ ("LR-LO", "8.12994000,-9.8755300")
    ∷ ("LR-MG", "6.62708000,-10.1783000")
    ∷ ("LR-MO", "6.43188000,-10.5806000")
    ∷ ("LR-MY", "4.64403000,-7.6973800")
    ∷ ("LR-NI", "6.86430000,-8.7362600")
    ∷ ("LR-RI", "5.82919000,-9.3972400")
    ∷ ("LR-SI", "5.39111000,-8.8681900")
    ∷ ("LR-X1~", "7.51706000,-10.1841000")
    ∷ ("LR-X2~", "5.29303000,-7.9143800")
    ∷ ("LS-A", "-29.55710000,27.7516000")
    ∷ ("LS-B", "-28.83280000,28.5244000")
    ∷ ("LS-C", "-28.89260000,28.2108000")
    ∷ ("LS-D", "-29.19180000,27.8982000")
    ∷ ("LS-E", "-29.80810000,28.1834000")
    ∷ ("LS-F", "-30.07500000,27.8628000")
    ∷ ("LS-G", "-30.35390000,27.9441000")
    ∷ ("LS-H", "-29.96790000,28.6768000")
    ∷ ("LS-J", "-29.20200000,28.9988000")
    ∷ ("LS-K", "-29.60290000,28.6979000")
    ∷ ("LT-AL", "54.25440000,24.1670000")
    ∷ ("LT-KL", "55.62540000,21.3879000")
    ∷ ("LT-KU", "55.06730000,23.9879000")
    ∷ ("LT-MR", "54.68290000,23.1751000")
    ∷ ("LT-PN", "56.07250000,24.9143000")
    ∷ ("LT-SA", "55.95850000,23.2677000")
    ∷ ("LT-TA", "55.26570000,22.6458000")
    ∷ ("LT-TE", "56.03980000,22.1086000")
    ∷ ("LT-UT", "55.52670000,25.6220000")
    ∷ ("LT-VL", "54.73380000,25.1588000")
    ∷ ("LU-D", "49.97630000,6.0048100")
    ∷ ("LU-G", "49.64740000,6.3383500")
    ∷ ("LU-L", "49.63760000,6.0511400")
    ∷ []

pub all_places-kz_to_lu : all_places kz_to_lu ≡ true
unfolding all_places
all_places-kz_to_lu = refl
