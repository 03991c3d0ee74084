-- ===== src/Static/Regions/SiToSy.antt =====
-- static/regions.go, SI-150 to SY-X01~.
use locate.Prelude.{String, ◌≡◌, refl, true, [], ◌∷◌}
use locate.Prelude.Maps.{Map}
use locate.Clientgeo.Coordinates.{all_places}

abbrev pub si_to_sy : Map String
si_to_sy =
    ("SI-150", "45.78360000,14.5092000")
    ∷ ("SI-151", "46.28890000,15.0327000")
    ∷ ("SI-152", "46.70830000,16.0462000")
    ∷ ("SI-153", "46.55980000,15.9531000")
    ∷ ("SI-154", "46.13390000,15.4056000")
    ∷ ("SI-155", "46.35520000,15.2299000")
    ∷ ("SI-156", "46.65390000,16.3581000")
    ∷ ("SI-157", "45.72050000,15.0480000")
    ∷ ("SI-158", "46.79690000,16.0940000")
    ∷ ("SI-159", "46.41610000,15.8358000")
    ∷ ("SI-160", "46.49430000,15.6245000")
    ∷ ("SI-161", "46.82020000,16.3126000")
    ∷ ("SI-162", "46.02490000,14.2917000")
    ∷ ("SI-163", "46.38970000,14.4871000")
    ∷ ("SI-164", "46.20550000,14.5417000")
    ∷ ("SI-165", "45.48140000,14.8204000")
    ∷ ("SI-166", "46.57230000,16.1282000")
    ∷ ("SI-167", "46.52910000,15.3869000")
    ∷ ("SI-168", "46.39280000,15.9513000")
    ∷ ("SI-169", "46.48530000,15.7138000")
    ∷ ("SI-170", "45.84870000,15.0911000")
    ∷ ("SI-171", "46.38100000,15.4560000")
    ∷ ("SI-172", "46.31160000,15.8719000")
    ∷ ("SI-173", "46.30340000,15.0870000")
    ∷ ("SI-174", "46.22140000,15.0943000")
    ∷ ("SI-175", "46.56750000,14.8823000")
    ∷ ("SI-176", "46.52690000,16.2803000")
    ∷ ("SI-177", "46.53090000,15.2558000")
    ∷ ("SI-178", "46.57990000,15.4976000")
    ∷ ("SI-179", "45.75480000,14.6157000")
    ∷ ("SI-180", "46.41140000,14.6582000")
    ∷ ("SI-181", "46.64590000,15.8405000")
    ∷ ("SI-182", "46.52440000,15.9658000")
    ∷ ("SI-183", "45.91870000,13.6431000")
    ∷ ("SI-184", "46.22580000,15.0116000")
    ∷ ("SI-185", "46.52300000,15.8943000")
    ∷ ("SI-186", "46.12590000,14.5552000")
    ∷ ("SI-187", "46.57960000,16.3630000")
    ∷ ("SI-188", "46.58040000,16.1766000")
    ∷ ("SI-189", "46.23480000,14.9474000")
    ∷ ("SI-190", "46.25870000,15.1651000")
    ∷ ("SI-191", "46.28370000,15.8193000")
    ∷ ("SI-192", "46.41110000,14.1816000")
    ∷ ("SI-193", "45.81840000,14.9443000")
    ∷ ("SI-194", "46.02310000,14.8692000")
    ∷ ("SI-195", "46.69140000,15.8873000")
    ∷ ("SK-BC", "48.52130000,19.4770000")
    ∷ ("SK-BL", "48.29350000,17.1882000")
    ∷ ("SK-KI", "48.66230000,21.2753000")
    ∷ ("SK-NI", "48.14430000,18.3966000")
    ∷ ("SK-PV", "49.14260000,21.2037000")
    ∷ ("SK-TA", "48.34220000,17.6989000")
    ∷ ("SK-TC", "48.88240000,18.0952000")
    ∷ ("SK-ZI", "49.16560000,19.2076000")
    ∷ ("SL-E", "8.27415000,-10.9314000")
    ∷ ("SL-N", "9.14067000,-11.9468000")
    ∷ ("SL-S", "7.85416000,-12.0512000")
    ∷ ("SL-W", "8.31041000,-13.0935000")
    ∷ ("SM-01", "43.94250000,12.4052000")
    ∷ ("SM-02", "43.90690000,12.4095000")
    ∷ ("SM-03", "43.94660000,12.4721000")
    ∷ ("SM-04", "43.93120000,12.4761000")
    ∷ ("SM-05", "43.90210000,12.4521000")
    ∷ ("SM-06", "43.93370000,12.4389000")
    ∷ ("SM-07", "43.92150000,12.4243000")
    ∷ ("SM-08", "43.91340000,12.4699000")
    ∷ ("SM-09", "43.96760000,12.4721000")
    ∷ ("SN-DB", "14.75090000,-16.1895000")
    ∷ ("SN-DK", "14.78350000,-17.3327000")
    ∷ ("SN-FK", "13.86990000,-16.4165000")
    ∷ ("SN-KA", "14.23640000,-15.2014000")
    ∷ ("SN-KD", "12.95740000,-14.4220000")
    ∷ ("SN-KE", "12.84200000,-12.1903000")
    ∷ ("SN-KL", "13.88460000,-15.9845000")
    ∷ ("SN-LG", "15.41830000,-15.5162000")
    ∷ ("SN-MT", "15.46470000,-13.5063000")
    ∷ ("SN-SE", "12.88030000,-15.6151000")
    ∷ ("SN-SL", "16.30510000,-14.9945000")
    ∷ ("SN-TC", "13.92780000,-13.2878000")
    ∷ ("SN-TH", "14.69310000,-16.8671000")
    ∷ ("SN-ZG", "12.48180000,-16.3435000")
    ∷ ("SO-BK", "4.40611000,43.8350000")
    ∷ ("SO-BN", "2.12409000,45.4360000")
    ∷ ("SO-BR", "9.95583000,50.1777000")
    ∷ ("SO-BY", "2.67209000,43.5450000")
    ∷ ("SO-GA", "5.09616000,46.6795000")
    ∷ ("SO-GE", "3.05384000,42.0524000")
    ∷ ("SO-HI", "4.36813000,45.4984000")
    ∷ ("SO-JD", "1.55342000,42.4706000")
    ∷ ("SO-JH", "0.00789770,41.8088000")
    ∷ ("SO-MU", "5.51036000,48.1009000")
    ∷ ("SO-NU", "8.46102000,48.8490000")
    ∷ ("SO-SD", "3.00561000,46.0549000")
    ∷ ("SO-SH", "1.63602000,44.1850000")
    ∷ ("SR-BR", "4.71274000,-55.1215000")
    ∷ ("SR-CM", "5.70720000,-54.8961000")
    ∷ ("SR-CR", "5.64121000,-56.2504000")
    ∷ ("SR-MA", "5.57938000,-54.3667000")
    ∷ ("SR-NI", "5.64956000,-56.8988000")
    ∷ ("SR-PM", "5.84317000,-55.1707000")
    ∷ ("SR-PR", "5.49368000,-55.3042000")
    ∷ ("SR-SA", "5.70188000,-55.6138000")
    ∷ ("SR-SI", "3.53162000,-55.9918000")
    ∷ ("SR-WA", "5.72606000,-55.1929000")
    ∷ ("SS-BN", "8.90381000,27.5350000")
    ∷ ("SS-BW", "7.31134000,26.3804000")
    ∷ ("SS-EC", "4.68142000,31.2854000")
    ∷ ("SS-EE", "4.79636000,33.5351000")
    ∷ ("SS-EW", "5.41296000,28.6169000")
    ∷ ("SS-JG", "7.24610000,32.5795000")
    ∷ ("SS-LK", "6.88023000,30.1369000")
    ∷ ("SS-NU", "10.35770000,32.5251000")
    ∷ ("SS-UY", "8.99929000,29.8883000")
    ∷ ("SS-WR", "7.85589000,28.6994000")
    ∷ ("ST-P", "1.60769000,7.3937400")
    ∷ ("ST-S", "0.23457400,6.6118500")
    ∷ ("SV-AH", "13.86570000,-89.9057000")
    ∷ ("SV-CA", "13.90790000,-88.7326000")
    ∷ ("SV-CH", "14.18950000,-89.0591000")
    ∷ ("SV-CU", "13.81660000,-89.0055000")
    ∷ ("SV-LI", "13.77270000,-89.3593000")
    ∷ ("SV-MO", "13.77360000,-88.1055000")
    ∷ ("SV-PA", "13.48720000,-88.9628000")
    ∷ ("SV-SA", "14.10240000,-89.5013000")
    ∷ ("SV-SM", "13.48820000,-88.1953000")
    ∷ ("SV-SO", "13.71650000,-89.6937000")
    ∷ ("SV-SS", "13.71300000,-89.1488000")
    ∷ ("SV-SV", "13.62910000,-88.6917000")
    ∷ ("SV-UN", "13.30200000,-87.9301000")
    ∷ ("SV-US", "13.41040000,-88.5293000")
    ∷ ("SY-DI", "33.51010000,36.2897000")
    ∷ ("SY-DR", "32.86860000,36.1698000")
    ∷ ("SY-DY", "35.07360000,40.2750000")
    ∷ ("SY-HA", "36.35360000,40.9092000")
    ∷ ("SY-HI", "34.15030000,38.1425000")
    ∷ ("SY-HL", "36.10540000,37.6010000")
    ∷ ("SY-HM", "35.23520000,37.2200000")
    ∷ ("SY-ID", "35.85280000,36.6829000")
    ∷ ("SY-LA", "35.54940000,36.0061000")
    ∷ ("SY-QU", "33.05300000,35.9145000")
    ∷ ("SY-RA", "36.00670000,38.9127000")
    ∷ ("SY-SU", "32.75770000,36.9153000")
    ∷ ("SY-TA", "34.92740000,36.0901000")
    ∷ ("SY-X01~", "33.15090000,35.8621000")
    ∷ []

pub all_places-si_to_sy : all_places si_to_sy ≡ true
unfolding all_places
all_places-si_to_sy = refl
