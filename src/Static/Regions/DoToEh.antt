-- ===== src/Static/Regions/DoToEh.antt =====
-- static/regions.go, DO-01 to EH-X01~.
use locate.Prelude.{String, ◌≡◌, refl, true, [], ◌∷◌}
use locate.Prelude.Maps.{Map}
use locate.Clientgeo.Coordinates.{all_places}

abbrev pub do_to_eh : Map String
do_to_eh =
    ("DO-01", "18.47460000,-69.9376000")
    ∷ ("DO-02", "18.59810000,-70.8169000")
    ∷ ("DO-03", "18.51160000,-71.3070000")
    ∷ ("DO-04", "18.16740000,-71.1872000")
    ∷ ("DO-05", "19.43190000,-71.5952000")
    ∷ ("DO-06", "19.19870000,-70.0202000")
    ∷ ("DO-07", "19.03700000,-71.6500000")
    ∷ ("DO-08", "18.76490000,-69.0568000")
    ∷ ("DO-09", "19.59980000,-70.3537000")
    ∷ ("DO-10", "18.37590000,-71.6057000")
    ∷ ("DO-11", "18.60800000,-68.6413000")
    ∷ ("DO-12", "18.52210000,-68.9869000")
    ∷ ("DO-13", "19.04530000,-70.6836000")
    ∷ ("DO-14", "19.46820000,-69.9933000")
    ∷ ("DO-15", "19.73020000,-71.4527000")
    ∷ ("DO-16", "17.93960000,-71.5201000")
    ∷ ("DO-17", "18.35900000,-70.3799000")
    ∷ ("DO-18", "19.74270000,-70.7972000")
    ∷ ("DO-19", "19.40300000,-70.3520000")
    ∷ ("DO-20", "19.27170000,-69.4756000")
    ∷ ("DO-21", "18.51260000,-70.1914000")
    ∷ ("DO-22", "18.89480000,-71.2622000")
    ∷ ("DO-23", "18.47960000,-69.3484000")
    ∷ ("DO-24", "19.01010000,-70.1500000")
    ∷ ("DO-25", "19.26360000,-70.8974000")
    ∷ ("DO-26", "19.36260000,-71.2919000")
    ∷ ("DO-27", "19.57410000,-71.0242000")
    ∷ ("DO-28", "18.92420000,-70.4081000")
    ∷ ("DO-29", "18.85330000,-69.8160000")
    ∷ ("DO-30", "18.98100000,-69.4030000")
    ∷ ("DO-31", "18.63670000,-70.5250000")
    ∷ ("DO-32", "18.56640000,-69.8427000")
    ∷ ("DZ-01", "25.70040000,-0.9355700")
    ∷ ("DZ-02", "36.23370000,1.2107800")
    ∷ ("DZ-03", "33.45210000,2.7562200")
    ∷ ("DZ-04", "35.89100000,7.0071500")
    ∷ ("DZ-05", "35.59230000,5.7821300")
    ∷ ("DZ-06", "36.61890000,4.9159100")
    ∷ ("DZ-07", "34.75690000,5.4669800")
    ∷ ("DZ-08", "30.18820000,-2.8183800")
    ∷ ("DZ-09", "36.50300000,2.9933100")
    ∷ ("DZ-10", "36.18840000,3.8437500")
    ∷ ("DZ-11", "23.00890000,6.3969500")
    ∷ ("DZ-12", "34.94370000,7.7833800")
    ∷ ("DZ-13", "34.74310000,-1.4904500")
    ∷ ("DZ-14", "34.90480000,1.5562700")
    ∷ ("DZ-15", "36.68140000,4.1908600")
    ∷ ("DZ-16", "36.70240000,3.0980600")
    ∷ ("DZ-17", "34.15080000,3.7037600")
    ∷ ("DZ-18", "36.71060000,5.9529200")
    ∷ ("DZ-19", "36.05130000,5.3842800")
    ∷ ("DZ-20", "34.59170000,0.1785990")
    ∷ ("DZ-21", "36.75550000,6.8160800")
    ∷ ("DZ-22", "34.83350000,-0.5864960")
    ∷ ("DZ-23", "36.82300000,7.5307300")
    ∷ ("DZ-24", "36.43810000,7.4629100")
    ∷ ("DZ-25", "36.37310000,6.6830100")
    ∷ ("DZ-26", "35.89580000,2.7641100")
    ∷ ("DZ-27", "35.96310000,0.3134490")
    ∷ ("DZ-28", "35.35920000,4.3796100")
    ∷ ("DZ-29", "35.36250000,0.1675660")
    ∷ ("DZ-30", "31.00140000,6.2527000")
    ∷ ("DZ-31", "35.52080000,-0.6100090")
    ∷ ("DZ-32", "32.77530000,0.9718580")
    ∷ ("DZ-33", "26.85060000,8.7628000")
    ∷ ("DZ-34", "36.09660000,4.6692600")
    ∷ ("DZ-35", "36.75030000,3.6063200")
    ∷ ("DZ-36", "36.70120000,8.1459700")
    ∷ ("DZ-37", "27.49850000,-5.8285000")
    ∷ ("DZ-38", "35.73020000,1.7786800")
    ∷ ("DZ-39", "33.11370000,7.0355700")
    ∷ ("DZ-40", "34.88960000,7.0278700")
    ∷ ("DZ-41", "36.15470000,7.8421100")
    ∷ ("DZ-42", "36.52700000,2.3414100")
    ∷ ("DZ-43", "36.24490000,6.1311000")
    ∷ ("DZ-44", "36.17350000,2.1071400")
    ∷ ("DZ-45", "33.16490000,-0.8305640")
    ∷ ("DZ-46", "35.27080000,-0.9957220")
    ∷ ("DZ-47", "31.15470000,3.1139600")
    ∷ ("DZ-48", "35.81740000,0.8204980")
    ∷ ("EC-A", "-3.15279000,-79.0909000")
    ∷ ("EC-B", "-1.67621000,-79.1205000")
    ∷ ("EC-C", "0.68661100,-78.0243000")
    ∷ ("EC-D", "-0.87588800,-76.4248000")
    ∷ ("EC-E", "1.29253000,-78.9448000")
    ∷ ("EC-F", "-2.54413000,-78.9978000")
    ∷ ("EC-G", "-1.98384000,-79.8608000")
    ∷ ("EC-H", "-1.88915000,-78.7417000")
    ∷ ("EC-I", "0.55271000,-78.4124000")
    ∷ ("EC-L", "-4.15948000,-79.8079000")
    ∷ ("EC-M", "-0.72720300,-80.1619000")
    ∷ ("EC-N", "-1.27330000,-78.5209000")
    ∷ ("EC-O", "-3.43657000,-79.8552000")
    ∷ ("EC-P", "-0.08713300,-78.5045000")
    ∷ ("EC-R", "-1.22191000,-79.4787000")
    ∷ ("EC-S", "-2.45050000,-77.8071000")
    ∷ ("EC-SD", "-0.34834000,-79.2525000")
    ∷ ("EC-SE", "-2.15487000,-80.5772000")
    ∷ ("EC-T", "-0.62449900,-77.7382000")
    ∷ ("EC-U", "-0.08551600,-76.6135000")
    ∷ ("EC-W", "-1.36804000,-89.6850000")
    ∷ ("EC-X", "-0.81333500,-78.8554000")
    ∷ ("EC-Y", "-1.84655000,-76.8768000")
    ∷ ("EC-Z", "-3.93679000,-78.8595000")
    ∷ ("EE-37", "59.32060000,25.1734000")
    ∷ ("EE-39", "58.85940000,22.5428000")
    ∷ ("EE-44", "59.13330000,27.4446000")
    ∷ ("EE-49", "58.73130000,26.5975000")
    ∷ ("EE-51", "58.97290000,25.6829000")
    ∷ ("EE-57", "59.00750000,23.2541000")
    ∷ ("EE-59", "59.22900000,26.3773000")
    ∷ ("EE-65", "58.09050000,27.1696000")
    ∷ ("EE-67", "58.12940000,23.9802000")
    ∷ ("EE-70", "58.98290000,24.6953000")
    ∷ ("EE-74", "57.80270000,23.2464000")
    ∷ ("EE-78", "58.37270000,26.7967000")
    ∷ ("EE-82", "57.94020000,26.0733000")
    ∷ ("EE-84", "58.30050000,25.5603000")
    ∷ ("EE-86", "57.77350000,26.9602000")
    ∷ ("EG-ALX", "30.82510000,29.7540000")
    ∷ ("EG-ASN", "22.65430000,32.2794000")
    ∷ ("EG-AST", "27.22230000,31.1431000")
    ∷ ("EG-BA", "25.21640000,33.7267000")
    ∷ ("EG-BH", "30.59450000,30.2522000")
    ∷ ("EG-BNS", "28.89480000,30.5041000")
    ∷ ("EG-C", "29.98010000,31.5788000")
    ∷ ("EG-DK", "31.03040000,31.4929000")
    ∷ ("EG-DT", "31.40670000,31.7285000")
    ∷ ("EG-FYM", "29.29650000,30.4584000")
    ∷ ("EG-GH", "30.85040000,31.0287000")
    ∷ ("EG-GZ", "29.34990000,29.7204000")
    ∷ ("EG-IS", "30.67650000,32.2811000")
    ∷ ("EG-JS", "28.92500000,33.7687000")
    ∷ ("EG-KB", "30.27250000,31.3250000")
    ∷ ("EG-KFS", "31.20750000,30.8530000")
    ∷ ("EG-LX", "25.70500000,32.6501000")
    ∷ ("EG-MN", "28.21410000,30.1604000")
    ∷ ("EG-MNF", "30.50760000,31.0029000")
    ∷ ("EG-MT", "29.61210000,27.5083000")
    ∷ ("EG-PTS", "31.12450000,32.4293000")
    ∷ ("EG-SHG", "26.51040000,31.8037000")
    ∷ ("EG-SHR", "30.81610000,31.8817000")
    ∷ ("EG-SIN", "30.50710000,33.6723000")
    ∷ ("EG-SUZ", "29.60980000,32.1523000")
    ∷ ("EG-WAD", "24.83140000,28.9556000")
    ∷ ("EH-X01~", "23.81300000,-12.8924000")
    ∷ []

pub all_places-do_to_eh : all_places do_to_eh ≡ true
unfolding all_places
all_places-do_to_eh = refl
