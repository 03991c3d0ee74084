-- ===== src/Static/Regions/AtToBe.antt =====
-- static/regions.go, AT-1 to BE-WNA.
use locate.Prelude.{String, ◌≡◌, refl, true, [], ◌∷◌}
use locate.Prelude.Maps.{Map}
use locate.Clientgeo.Coordinates.{all_places}

abbrev pub at_to_be : Map String
at_to_be =
    ("AT-1", "47.42810000,16.3584000")
    ∷ ("AT-2", "46.72010000,13.8695000")
    ∷ ("AT-4", "48.23770000,13.8560000")
    ∷ ("AT-5", "47.25340000,13.0106000")
    ∷ ("AT-6", "47.39010000,14.8565000")
    ∷ ("AT-7", "47.20820000,11.3800000")
    ∷ ("AT-8", "47.26170000,9.8737500")
    ∷ ("AT-9", "48.22470000,16.3798000")
    ∷ ("AU-ACT", "-35.46180000,148.9830000")
    ∷ ("AU-NSW", "-31.58600000,159.0760000")
    ∷ ("AU-NT", "-20.10260000,133.7800000")
    ∷ ("AU-QLD", "-23.13640000,144.7780000")
    ∷ ("AU-SA", "-29.65040000,135.7830000")
    ∷ ("AU-TAS", "-42.13830000,146.6030000")
    ∷ ("AU-VIC", "-37.00820000,144.7500000")
    ∷ ("AU-WA", "-25.84830000,121.6460000")
    ∷ ("AU-X02~", "-35.15320000,150.6920000")
    ∷ ("AU-X03~", "-54.59290000,158.8980000")
    ∷ ("AU-X04~", "-12.43250000,123.5860000")
    ∷ ("AW-X01~", "12.51470000,-69.9689000")
    ∷ ("AX-X02~", "60.13950000,19.8953000")
    ∷ ("AX-X04~", "60.21690000,19.5905000")
    ∷ ("AX-X06~", "60.00190000,20.3479000")
    ∷ ("AX-X09~", "60.09030000,19.9417000")
    ∷ ("AX-X10~", "60.04490000,20.1496000")
    ∷ ("AX-X11~", "60.10220000,20.2285000")
    ∷ ("AX-X12~", "60.24560000,20.4053000")
    ∷ ("AX-X13~", "60.13330000,20.6633000")
    ∷ ("AX-X14~", "60.26470000,20.8067000")
    ∷ ("AX-X15~", "60.41040000,21.0480000")
    ∷ ("AX-X16~", "59.92300000,20.8903000")
    ∷ ("AZ-ABS", "40.32780000,49.3694000")
    ∷ ("AZ-AGA", "41.18960000,45.4341000")
    ∷ ("AZ-AGC", "39.97100000,47.4145000")
    ∷ ("AZ-AGM", "40.04550000,46.9918000")
    ∷ ("AZ-AGS", "40.56800000,47.4132000")
    ∷ ("AZ-AGU", "40.50910000,48.3659000")
    ∷ ("AZ-AST", "38.49380000,48.7049000")
    ∷ ("AZ-BA", "40.44470000,50.0435000")
    ∷ ("AZ-BAB", "39.18710000,45.3373000")
    ∷ ("AZ-BAL", "41.73930000,46.4478000")
    ∷ ("AZ-BAR", "40.35340000,47.2467000")
    ∷ ("AZ-BEY", "39.75910000,47.6611000")
    ∷ ("AZ-BIL", "39.46040000,48.3681000")
    ∷ ("AZ-CAB", "39.27680000,46.9823000")
    ∷ ("AZ-CAL", "39.17570000,48.4338000")
    ∷ ("AZ-CUL", "39.13600000,45.6847000")
    ∷ ("AZ-DAS", "40.48370000,46.0228000")
    ∷ ("AZ-FUZ", "39.55740000,47.3220000")
    ∷ ("AZ-GA", "40.68640000,46.3206000")
    ∷ ("AZ-GOY", "40.56900000,47.8172000")
    ∷ ("AZ-GYG", "40.46270000,46.2950000")
    ∷ ("AZ-HAC", "40.11060000,48.8984000")
    ∷ ("AZ-IMI", "39.91210000,48.0606000")
    ∷ ("AZ-ISM", "40.78960000,48.1125000")
    ∷ ("AZ-KAL", "40.09660000,46.1688000")
    ∷ ("AZ-KAN", "39.40390000,45.1447000")
    ∷ ("AZ-KUR", "40.24430000,48.1586000")
    ∷ ("AZ-LA", "38.71680000,48.7309000")
    ∷ ("AZ-LAN", "39.77170000,46.3095000")
    ∷ ("AZ-LER", "38.71390000,48.4779000")
    ∷ ("AZ-MAS", "38.98580000,48.6980000")
    ∷ ("AZ-MI", "40.75080000,46.9846000")
    ∷ ("AZ-NA", "40.50770000,46.8275000")
    ∷ ("AZ-NEF", "39.39240000,49.0585000")
    ∷ ("AZ-NX", "39.21270000,45.4212000")
    ∷ ("AZ-OGU", "41.04000000,47.4853000")
    ∷ ("AZ-ORD", "39.09720000,45.9272000")
    ∷ ("AZ-QAB", "40.95780000,47.7784000")
    ∷ ("AZ-QAX", "41.37500000,46.7976000")
    ∷ ("AZ-QAZ", "41.07780000,45.2004000")
    ∷ ("AZ-QBA", "41.18470000,48.3368000")
    ∷ ("AZ-QBI", "39.34340000,46.5917000")
    ∷ ("AZ-QOB", "40.49770000,48.9623000")
    ∷ ("AZ-QUS", "41.40050000,48.1944000")
    ∷ ("AZ-SA", "41.18820000,47.1885000")
    ∷ ("AZ-SAB", "39.81790000,48.8122000")
    ∷ ("AZ-SAD", "39.69900000,44.8638000")
    ∷ ("AZ-SAH", "39.42270000,45.5799000")
    ∷ ("AZ-SAL", "39.71980000,49.0495000")
    ∷ ("AZ-SAR", "39.59290000,45.0172000")
    ∷ ("AZ-SAT", "39.78920000,48.4591000")
    ∷ ("AZ-SBN", "41.19690000,48.9074000")
    ∷ ("AZ-SIY", "41.04140000,49.0973000")
    ∷ ("AZ-SKR", "40.83170000,46.0161000")
    ∷ ("AZ-SM", "40.58410000,49.5962000")
    ∷ ("AZ-SMI", "40.37680000,48.5986000")
    ∷ ("AZ-SMX", "40.87950000,46.4234000")
    ∷ ("AZ-SR", "39.94740000,48.9257000")
    ∷ ("AZ-SUS", "39.70270000,46.6580000")
    ∷ ("AZ-TAR", "40.25470000,46.7929000")
    ∷ ("AZ-TOV", "41.06690000,45.8238000")
    ∷ ("AZ-UCA", "40.39250000,47.7290000")
    ∷ ("AZ-X01~", "39.76180000,46.7523000")
    ∷ ("AZ-XA", "39.82850000,46.7662000")
    ∷ ("AZ-XAC", "41.51980000,48.7701000")
    ∷ ("AZ-XIZ", "40.72490000,49.1540000")
    ∷ ("AZ-XVD", "39.63070000,46.9900000")
    ∷ ("AZ-YAR", "38.86600000,48.2690000")
    ∷ ("AZ-YEV", "40.60190000,47.1503000")
    ∷ ("AZ-ZAN", "39.09040000,46.6305000")
    ∷ ("AZ-ZAQ", "41.56660000,46.6540000")
    ∷ ("AZ-ZAR", "40.23950000,47.6936000")
    ∷ ("BA-BIH", "43.32260000,17.8878000")
    ∷ ("BA-BRC", "44.83050000,18.8540000")
    ∷ ("BA-SRP", "45.06000000,18.2977000")
    ∷ ("BA-X01~", "44.93070000,18.0675000")
    ∷ ("BA-X02~", "44.81460000,17.2619000")
    ∷ ("BA-X03~", "44.75130000,19.1471000")
    ∷ ("BA-X04~", "44.19680000,19.0758000")
    ∷ ("BA-X05~", "43.92750000,18.7510000")
    ∷ ("BA-X06~", "43.44430000,18.7352000")
    ∷ ("BA-X07~", "43.10370000,18.3391000")
    ∷ ("BB-01", "13.08730000,-59.5380000")
    ∷ ("BB-02", "13.25510000,-59.5759000")
    ∷ ("BB-03", "13.14890000,-59.5479000")
    ∷ ("BB-04", "13.19200000,-59.6259000")
    ∷ ("BB-05", "13.17950000,-59.5039000")
    ∷ ("BB-06", "13.21180000,-59.5495000")
    ∷ ("BB-07", "13.31770000,-59.6150000")
    ∷ ("BB-08", "13.11800000,-59.6047000")
    ∷ ("BB-09", "13.26790000,-59.6109000")
    ∷ ("BB-10", "13.13680000,-59.4700000")
    ∷ ("BB-11", "13.18770000,-59.5898000")
    ∷ ("BD-A", "22.43510000,90.2369000")
    ∷ ("BD-B", "22.42450000,92.1333000")
    ∷ ("BD-C", "24.16530000,90.4053000")
    ∷ ("BD-D", "22.91790000,89.3708000")
    ∷ ("BD-E", "24.66640000,89.0438000")
    ∷ ("BD-F", "25.75710000,89.1120000")
    ∷ ("BD-G", "24.64520000,91.7033000")
    ∷ ("BE-BRU", "50.83320000,4.3626600")
    ∷ ("BE-VAN", "51.24850000,4.7212200")
    ∷ ("BE-VLI", "50.99540000,5.4131400")
    ∷ ("BE-VOV", "50.97490000,3.8318600")
    ∷ ("BE-VWV", "51.03120000,3.0220200")
    ∷ ("BE-WBR", "50.64160000,4.5546600")
    ∷ ("BE-WHT", "50.52100000,3.8892500")
    ∷ ("BE-WLG", "50.57940000,5.6765100")
    ∷ ("BE-WLX", "49.96370000,5.5011700")
    ∷ ("BE-WNA", "50.32440000,4.8871200")
    ∷ []

pub all_places-at_to_be : all_places at_to_be ≡ true
unfolding all_places
all_places-at_to_be = refl
