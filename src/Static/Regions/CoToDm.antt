-- ===== src/Static/Regions/CoToDm.antt =====
-- static/regions.go, CO-AMA to DM-11.
use locate.Prelude.{String, ◌≡◌, refl, true, [], ◌∷◌}
use locate.Prelude.Maps.{Map}
use locate.Clientgeo.Coordinates.{all_places}

abbrev pub co_to_dm : Map String
co_to_dm =
    ("CO-AMA", "-1.26032000,-71.9171000")
    ∷ ("CO-ANT", "6.70366000,-75.5071000")
    ∷ ("CO-ARA", "6.64307000,-70.8913000")
    ∷ ("CO-ATL", "10.67120000,-74.9941000")
    ∷ ("CO-BOL", "8.57823000,-74.1807000")
    ∷ ("CO-BOY", "5.68515000,-72.9330000")
    ∷ ("CO-CAL", "5.29037000,-75.2793000")
    ∷ ("CO-CAQ", "0.61549400,-73.8097000")
    ∷ ("CO-CAS", "5.46249000,-71.4622000")
    ∷ ("CO-CAU", "2.61609000,-77.2770000")
    ∷ ("CO-CES", "9.84893000,-73.4339000")
    ∷ ("CO-CHO", "5.38283000,-76.7263000")
    ∷ ("CO-COR", "8.43894000,-75.6522000")
    ∷ ("CO-CUN", "4.08564000,-74.2443000")
    ∷ ("CO-GUA", "2.70535000,-68.8925000")
    ∷ ("CO-GUV", "1.85144000,-71.8348000")
    ∷ ("CO-HUI", "2.65469000,-75.5471000")
    ∷ ("CO-LAG", "11.42450000,-72.6702000")
    ∷ ("CO-MAG", "10.37310000,-74.3474000")
    ∷ ("CO-MET", "3.53020000,-72.9789000")
    ∷ ("CO-NAR", "1.60168000,-77.9777000")
    ∷ ("CO-NSA", "8.08600000,-72.8175000")
    ∷ ("CO-PUT", "0.42021700,-75.5514000")
    ∷ ("CO-QUI", "4.47197000,-75.6400000")
    ∷ ("CO-RIS", "4.82682000,-75.6743000")
    ∷ ("CO-SAN", "6.85402000,-73.4981000")
    ∷ ("CO-SAP", "12.54290000,-81.7049000")
    ∷ ("CO-SUC", "9.01236000,-75.1319000")
    ∷ ("CO-TOL", "3.93749000,-75.2073000")
    ∷ ("CO-VAC", "3.58331000,-76.5923000")
    ∷ ("CO-VAU", "0.79097100,-70.5869000")
    ∷ ("CO-VID", "4.89224000,-69.2414000")
    ∷ ("CO-X01~", "3.97794000,-81.5928000")
    ∷ ("CR-A", "10.75270000,-84.7995000")
    ∷ ("CR-C", "9.78411000,-83.6991000")
    ∷ ("CR-G", "10.33330000,-85.3552000")
    ∷ ("CR-H", "10.46260000,-83.9527000")
    ∷ ("CR-L", "9.70180000,-83.1486000")
    ∷ ("CR-P", "8.93419000,-83.2294000")
    ∷ ("CR-SJ", "9.60369000,-84.0105000")
    ∷ ("CU-01", "22.49520000,-83.6740000")
    ∷ ("CU-03", "23.07370000,-82.3075000")
    ∷ ("CU-04", "22.61520000,-81.1860000")
    ∷ ("CU-05", "22.60100000,-79.9527000")
    ∷ ("CU-06", "22.32530000,-80.4831000")
    ∷ ("CU-07", "21.96180000,-79.3804000")
    ∷ ("CU-08", "21.96260000,-78.6388000")
    ∷ ("CU-09", "21.36750000,-77.9304000")
    ∷ ("CU-10", "21.02990000,-77.0723000")
    ∷ ("CU-11", "20.80800000,-76.1892000")
    ∷ ("CU-12", "20.32120000,-76.8386000")
    ∷ ("CU-13", "20.19590000,-76.2117000")
    ∷ ("CU-14", "20.23580000,-74.8112000")
    ∷ ("CU-15", "22.85460000,-82.6903000")
    ∷ ("CU-16", "22.87610000,-82.0296000")
    ∷ ("CU-99", "21.67540000,-82.8148000")
    ∷ ("CV-BR", "14.85100000,-24.7204000")
    ∷ ("CV-BV", "16.10240000,-22.8070000")
    ∷ ("CV-CA", "15.09180000,-23.7027000")
    ∷ ("CV-CF", "14.92410000,-24.3301000")
    ∷ ("CV-CR", "15.11570000,-23.5494000")
    ∷ ("CV-MA", "15.21150000,-23.1806000")
    ∷ ("CV-MO", "15.00080000,-24.3541000")
    ∷ ("CV-PA", "17.11790000,-25.0151000")
    ∷ ("CV-PN", "17.01730000,-25.2258000")
    ∷ ("CV-PR", "14.95290000,-23.5159000")
    ∷ ("CV-RB", "16.61970000,-24.2870000")
    ∷ ("CV-RG", "17.14180000,-25.1204000")
    ∷ ("CV-RS", "14.97680000,-23.6404000")
    ∷ ("CV-SD", "15.01520000,-23.5254000")
    ∷ ("CV-SF", "14.92410000,-24.4403000")
    ∷ ("CV-SL", "16.72510000,-22.9363000")
    ∷ ("CV-SM", "15.17800000,-23.6356000")
    ∷ ("CV-SO", "15.04390000,-23.5781000")
    ∷ ("CV-SS", "15.06780000,-23.6164000")
    ∷ ("CV-SV", "16.84490000,-24.9720000")
    ∷ ("CV-TA", "15.23550000,-23.7170000")
    ∷ ("CV-TS", "16.60060000,-24.3493000")
    ∷ ("CW-X01~", "12.15580000,-68.9550000")
    ∷ ("CY-01", "35.02140000,33.0430000")
    ∷ ("CY-02", "34.77550000,32.9674000")
    ∷ ("CY-03", "34.97280000,33.8678000")
    ∷ ("CY-04", "35.01640000,33.9489000")
    ∷ ("CY-05", "34.93070000,32.5276000")
    ∷ ("CZ-JC", "49.07260000,14.5598000")
    ∷ ("CZ-JM", "49.10540000,16.7484000")
    ∷ ("CZ-KA", "50.16010000,12.7286000")
    ∷ ("CZ-KR", "50.37230000,15.8838000")
    ∷ ("CZ-LI", "50.73390000,14.9186000")
    ∷ ("CZ-MO", "49.76870000,17.9683000")
    ∷ ("CZ-OL", "49.69280000,17.1244000")
    ∷ ("CZ-PA", "49.86510000,16.2784000")
    ∷ ("CZ-PL", "49.64580000,13.2001000")
    ∷ ("CZ-PR", "50.06470000,14.4487000")
    ∷ ("CZ-US", "50.49960000,13.8424000")
    ∷ ("CZ-VY", "49.40880000,15.7721000")
    ∷ ("CZ-ZL", "49.18370000,17.7745000")
    ∷ ("DE-BE", "52.51310000,13.4213000")
    ∷ ("DE-BW", "48.59000000,9.0032800")
    ∷ ("DE-BY", "49.00560000,11.3966000")
    ∷ ("DE-HB", "53.12110000,8.7429900")
    ∷ ("DE-HE", "50.60980000,8.9587300")
    ∷ ("DE-HH", "53.55900000,10.0344000")
    ∷ ("DE-MV", "53.75280000,12.5647000")
    ∷ ("DE-NI", "52.77500000,8.8618400")
    ∷ ("DE-NW", "51.61460000,7.6570800")
    ∷ ("DE-RP", "49.86850000,7.3697400")
    ∷ ("DE-SH", "54.13150000,9.8460500")
    ∷ ("DE-SL", "49.40260000,6.8662500")
    ∷ ("DE-SN", "51.00530000,13.4596000")
    ∷ ("DE-ST", "51.93380000,11.6796000")
    ∷ ("DE-TH", "50.90520000,11.0976000")
    ∷ ("DJ-AR", "11.44610000,42.8032000")
    ∷ ("DJ-AS", "11.21070000,42.8985000")
    ∷ ("DJ-DI", "11.38840000,42.2277000")
    ∷ ("DJ-DJ", "11.55240000,43.0370000")
    ∷ ("DJ-OB", "12.28420000,43.0464000")
    ∷ ("DJ-TA", "11.79720000,42.5043000")
    ∷ ("DK-81", "56.82610000,9.7329900")
    ∷ ("DK-82", "56.23670000,9.2686200")
    ∷ ("DK-83", "55.34900000,9.1292000")
    ∷ ("DK-84", "55.84860000,12.3198000")
    ∷ ("DK-85", "55.44170000,11.7483000")
    ∷ ("DM-02", "15.53780000,-61.3589000")
    ∷ ("DM-03", "15.39560000,-61.2919000")
    ∷ ("DM-04", "15.30000000,-61.3489000")
    ∷ ("DM-05", "15.57670000,-61.4483000")
    ∷ ("DM-06", "15.43550000,-61.3863000")
    ∷ ("DM-07", "15.24830000,-61.3644000")
    ∷ ("DM-08", "15.22170000,-61.3612000")
    ∷ ("DM-09", "15.27680000,-61.3052000")
    ∷ ("DM-10", "15.35290000,-61.3717000")
    ∷ ("DM-11", "15.49860000,-61.4448000")
    ∷ []

pub all_places-co_to_dm : all_places co_to_dm ≡ true
unfolding all_places
all_places-co_to_dm = refl
