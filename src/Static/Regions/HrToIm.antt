-- ===== src/Static/Regions/HrToIm.antt =====
-- static/regions.go, HR-01 to IM-X01~.
use locate.Prelude.{String, ◌≡◌, refl, true, [], ◌∷◌}
use locate.Prelude.Maps.{Map}
use locate.Clientgeo.Coordinates.{all_places}

abbrev pub hr_to_im : Map String
hr_to_im =
    ("HR-01", "45.72030000,15.5948000")
    ∷ ("HR-02", "46.08830000,15.9228000")
    ∷ ("HR-03", "45.46870000,16.4156000")
    ∷ ("HR-04", "45.33960000,15.4054000")
    ∷ ("HR-05", "46.19180000,16.3267000")
    ∷ ("HR-06", "46.19140000,16.8310000")
    ∷ ("HR-07", "45.72070000,16.9948000")
    ∷ ("HR-08", "45.37360000,14.6925000")
    ∷ ("HR-09", "44.75210000,15.2031000")
    ∷ ("HR-10", "45.73030000,17.6078000")
    ∷ ("HR-12", "45.14540000,17.8112000")
    ∷ ("HR-13", "44.20070000,15.7536000")
    ∷ ("HR-14", "45.49480000,18.5060000")
    ∷ ("HR-15", "43.79110000,16.0356000")
    ∷ ("HR-16", "45.14670000,18.9549000")
    ∷ ("HR-17", "43.52660000,16.7880000")
    ∷ ("HR-18", "45.12480000,13.8682000")
    ∷ ("HR-19", "42.76100000,16.8699000")
    ∷ ("HR-20", "46.39800000,16.5464000")
    ∷ ("HR-21", "45.82510000,15.9958000")
    ∷ ("HT-AR", "19.30890000,-72.5089000")
    ∷ ("HT-CE", "19.02900000,-72.0025000")
    ∷ ("HT-GA", "18.51370000,-74.1273000")
    ∷ ("HT-ND", "19.64120000,-72.3274000")
    ∷ ("HT-NE", "19.49290000,-71.9088000")
    ∷ ("HT-NI", "18.42970000,-73.3909000")
    ∷ ("HT-NO", "19.82570000,-73.0166000")
    ∷ ("HT-OU", "18.55010000,-72.2399000")
    ∷ ("HT-SD", "18.29290000,-73.7855000")
    ∷ ("HT-SE", "18.29470000,-72.3683000")
    ∷ ("HU-BC", "46.74990000,21.0968000")
    ∷ ("HU-BK", "46.60960000,19.4699000")
    ∷ ("HU-BU", "47.47570000,19.1282000")
    ∷ ("HU-BZ", "48.21040000,21.0983000")
    ∷ ("HU-CS", "46.59970000,20.1413000")
    ∷ ("HU-DE", "47.52520000,21.6192000")
    ∷ ("HU-DU", "46.94890000,18.8971000")
    ∷ ("HU-ED", "47.36770000,18.8930000")
    ∷ ("HU-EG", "47.93160000,20.3836000")
    ∷ ("HU-GY", "47.66210000,17.6657000")
    ∷ ("HU-HE", "47.86140000,20.1774000")
    ∷ ("HU-HV", "46.37670000,20.3919000")
    ∷ ("HU-JN", "47.20520000,20.5204000")
    ∷ ("HU-KE", "47.66970000,18.2244000")
    ∷ ("HU-KM", "46.92820000,19.6684000")
    ∷ ("HU-KV", "46.35600000,17.7984000")
    ∷ ("HU-MI", "48.11810000,20.7319000")
    ∷ ("HU-NK", "46.45130000,16.9898000")
    ∷ ("HU-NO", "47.96620000,19.5146000")
    ∷ ("HU-NY", "47.93570000,21.7602000")
    ∷ ("HU-PE", "47.43440000,19.4435000")
    ∷ ("HU-PS", "46.06990000,18.2337000")
    ∷ ("HU-SD", "46.26890000,20.1431000")
    ∷ ("HU-SF", "47.19770000,18.4618000")
    ∷ ("HU-SH", "47.23080000,16.6250000")
    ∷ ("HU-SK", "47.20600000,20.1680000")
    ∷ ("HU-SN", "47.69110000,16.6001000")
    ∷ ("HU-SS", "46.35600000,18.6981000")
    ∷ ("HU-ST", "48.10570000,19.7907000")
    ∷ ("HU-TB", "47.56670000,18.4452000")
    ∷ ("HU-VM", "47.12300000,17.9145000")
    ∷ ("HU-ZE", "46.84520000,16.8447000")
    ∷ ("ID-AC", "4.41533000,96.9956000")
    ∷ ("ID-BA", "-8.34120000,115.1790000")
    ∷ ("ID-BB", "-2.95817000,106.8190000")
    ∷ ("ID-BE", "-3.48606000,102.3680000")
    ∷ ("ID-BT", "-6.25794000,106.1670000")
    ∷ ("ID-GO", "0.76050100,122.3310000")
    ∷ ("ID-JA", "-1.65497000,102.8230000")
    ∷ ("ID-JB", "-6.90763000,107.6380000")
    ∷ ("ID-JI", "-7.88129000,112.6160000")
    ∷ ("ID-JK", "-6.22462000,106.8370000")
    ∷ ("ID-JT", "-7.29010000,109.8960000")
    ∷ ("ID-KB", "-0.06364740,111.3040000")
    ∷ ("ID-KI", "1.28915000,116.3540000")
    ∷ ("ID-KR", "-0.14263900,104.6010000")
    ∷ ("ID-KS", "-3.00713000,115.4510000")
    ∷ ("ID-KT", "-1.84217000,113.2860000")
    ∷ ("ID-LA", "-4.91900000,105.0590000")
    ∷ ("ID-MA", "-8.24814000,128.1610000")
    ∷ ("ID-MU", "-2.28945000,125.9760000")
    ∷ ("ID-NB", "-8.57106000,116.2940000")
    ∷ ("ID-NT", "-8.58443000,120.6890000")
    ∷ ("ID-PA", "-4.10825000,138.6890000")
    ∷ ("ID-PB", "-1.32525000,132.8250000")
    ∷ ("ID-RI", "0.39689200,101.7450000")
    ∷ ("ID-SA", "0.85303900,124.4460000")
    ∷ ("ID-SB", "-0.64261100,100.6110000")
    ∷ ("ID-SG", "-4.07460000,122.1190000")
    ∷ ("ID-SN", "-3.74440000,119.9900000")
    ∷ ("ID-SR", "-2.69615000,119.3160000")
    ∷ ("ID-SS", "-3.38240000,104.0730000")
    ∷ ("ID-ST", "-1.30097000,120.1530000")
    ∷ ("ID-SU", "2.36304000,99.2161000")
    ∷ ("ID-YO", "-7.83533000,110.4430000")
    ∷ ("IE-CE", "52.89090000,-9.1070400")
    ∷ ("IE-CN", "53.96230000,-7.2717600")
    ∷ ("IE-CO", "51.88680000,-8.4735100")
    ∷ ("IE-CW", "52.71500000,-6.7943100")
    ∷ ("IE-D", "53.26000000,-6.1878800")
    ∷ ("IE-DL", "54.89240000,-8.0298600")
    ∷ ("IE-G", "53.30200000,-9.0327300")
    ∷ ("IE-KE", "53.13640000,-6.7999900")
    ∷ ("IE-KK", "52.57580000,-7.2941000")
    ∷ ("IE-KY", "52.11950000,-9.5547000")
    ∷ ("IE-LD", "53.71660000,-7.7023900")
    ∷ ("IE-LH", "53.92590000,-6.4862500")
    ∷ ("IE-LK", "52.52420000,-8.7589200")
    ∷ ("IE-LM", "54.05130000,-7.9946500")
    ∷ ("IE-LS", "53.01160000,-7.3296200")
    ∷ ("IE-MH", "53.63240000,-6.7138700")
    ∷ ("IE-MN", "54.21060000,-6.9417400")
    ∷ ("IE-MO", "53.89500000,-9.2304800")
    ∷ ("IE-OY", "53.25650000,-7.5321400")
    ∷ ("IE-RN", "53.77380000,-8.2120800")
    ∷ ("IE-SO", "54.12770000,-8.4890000")
    ∷ ("IE-TA", "52.44620000,-7.8314500")
    ∷ ("IE-WD", "52.19900000,-7.5929200")
    ∷ ("IE-WH", "53.52520000,-7.4553000")
    ∷ ("IE-WW", "52.99470000,-6.3884900")
    ∷ ("IE-WX", "52.44230000,-6.5851700")
    ∷ ("IL-D", "30.93500000,34.8419000")
    ∷ ("IL-HA", "32.55230000,34.9727000")
    ∷ ("IL-JM", "31.73970000,35.0176000")
    ∷ ("IL-M", "31.90680000,34.8491000")
    ∷ ("IL-TA", "32.09660000,34.8091000")
    ∷ ("IL-Z", "32.82350000,35.4202000")
    ∷ ("IM-X01~", "54.22740000,-4.5325100")
    ∷ []

pub all_places-hr_to_im : all_places hr_to_im ≡ true
unfolding all_places
all_places-hr_to_im = refl
