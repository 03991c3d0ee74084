-- ===== src/Static/Regions/MsToMw.antt =====
-- static/regions.go, MS-A to MW-ZO.
use locate.Prelude.{String, ◌≡◌, refl, true, [], ◌∷◌}
use locate.Prelude.Maps.{Map}
use locate.Clientgeo.Coordinates.{all_places}

abbrev pub ms_to_mw : Map String
ms_to_mw =
    ("MS-A", "16.70480000,-62.1886000")
    ∷ ("MS-G", "16.74420000,-62.1671000")
    ∷ ("MS-P", "16.77620000,-62.2017000")
    ∷ ("MT-01", "35.88780000,14.4318000")
    ∷ ("MT-02", "35.89520000,14.4524000")
    ∷ ("MT-03", "35.88710000,14.5260000")
    ∷ ("MT-04", "35.89340000,14.4662000")
    ∷ ("MT-05", "35.82810000,14.5236000")
    ∷ ("MT-06", "35.88000000,14.5207000")
    ∷ ("MT-07", "35.85900000,14.3868000")
    ∷ ("MT-08", "35.86940000,14.5196000")
    ∷ ("MT-09", "35.88800000,14.5030000")
    ∷ ("MT-10", "36.03320000,14.2398000")
    ∷ ("MT-11", "35.84470000,14.5019000")
    ∷ ("MT-12", "35.90250000,14.4908000")
    ∷ ("MT-13", "36.02510000,14.2853000")
    ∷ ("MT-14", "36.06220000,14.2058000")
    ∷ ("MT-15", "35.91880000,14.4553000")
    ∷ ("MT-16", "36.06250000,14.2247000")
    ∷ ("MT-17", "35.84180000,14.5150000")
    ∷ ("MT-18", "35.88180000,14.4868000")
    ∷ ("MT-19", "35.90540000,14.4549000")
    ∷ ("MT-20", "35.88640000,14.5149000")
    ∷ ("MT-21", "35.88710000,14.5351000")
    ∷ ("MT-22", "36.03610000,14.2145000")
    ∷ ("MT-23", "35.84090000,14.4836000")
    ∷ ("MT-24", "35.89920000,14.4412000")
    ∷ ("MT-25", "35.85630000,14.4831000")
    ∷ ("MT-26", "35.87160000,14.4926000")
    ∷ ("MT-27", "35.85440000,14.5538000")
    ∷ ("MT-28", "35.83930000,14.5457000")
    ∷ ("MT-29", "35.88180000,14.4085000")
    ∷ ("MT-30", "35.95580000,14.3578000")
    ∷ ("MT-31", "35.91480000,14.3658000")
    ∷ ("MT-32", "35.90760000,14.4209000")
    ∷ ("MT-33", "35.84260000,14.4666000")
    ∷ ("MT-34", "35.89490000,14.4825000")
    ∷ ("MT-35", "35.88690000,14.4049000")
    ∷ ("MT-36", "36.02510000,14.2276000")
    ∷ ("MT-37", "36.04510000,14.2978000")
    ∷ ("MT-38", "35.92890000,14.4379000")
    ∷ ("MT-39", "35.87270000,14.5050000")
    ∷ ("MT-40", "35.92790000,14.4756000")
    ∷ ("MT-41", "35.88910000,14.4927000")
    ∷ ("MT-42", "36.03320000,14.3163000")
    ∷ ("MT-43", "35.87530000,14.4684000")
    ∷ ("MT-44", "35.83120000,14.4531000")
    ∷ ("MT-45", "36.04070000,14.2444000")
    ∷ ("MT-46", "35.88330000,14.3774000")
    ∷ ("MT-47", "35.83230000,14.4902000")
    ∷ ("MT-48", "35.91260000,14.4897000")
    ∷ ("MT-49", "35.90500000,14.4756000")
    ∷ ("MT-50", "36.04710000,14.1971000")
    ∷ ("MT-51", "35.94050000,14.4042000")
    ∷ ("MT-52", "36.02010000,14.2514000")
    ∷ ("MT-53", "35.85310000,14.5028000")
    ∷ ("MT-54", "35.88650000,14.4781000")
    ∷ ("MT-55", "35.84740000,14.4252000")
    ∷ ("MT-56", "35.90830000,14.4992000")
    ∷ ("MT-57", "35.91700000,14.4698000")
    ∷ ("MT-58", "35.89450000,14.4945000")
    ∷ ("MT-59", "35.86160000,14.5088000")
    ∷ ("MT-60", "35.89480000,14.5110000")
    ∷ ("MT-61", "36.05060000,14.2720000")
    ∷ ("MT-62", "36.03000000,14.2656000")
    ∷ ("MT-63", "35.88160000,14.5457000")
    ∷ ("MT-64", "35.87180000,14.5397000")
    ∷ ("MT-65", "36.06250000,14.2488000")
    ∷ ("MT-66", "35.87130000,14.4365000")
    ∷ ("MT-67", "35.85390000,14.5324000")
    ∷ ("MT-68", "35.82300000,14.4822000")
    ∷ ("MU-AG", "-10.35120000,56.5372000")
    ∷ ("MU-BL", "-20.34240000,57.4149000")
    ∷ ("MU-BR", "-20.23870000,57.4713000")
    ∷ ("MU-CU", "-20.31830000,57.5168000")
    ∷ ("MU-FL", "-20.21730000,57.7206000")
    ∷ ("MU-GP", "-20.39200000,57.6498000")
    ∷ ("MU-MO", "-20.24920000,57.5955000")
    ∷ ("MU-PA", "-20.08990000,57.5730000")
    ∷ ("MU-PL", "-20.14960000,57.5038000")
    ∷ ("MU-PW", "-20.35990000,57.5197000")
    ∷ ("MU-QB", "-20.26880000,57.4801000")
    ∷ ("MU-RO", "-19.69700000,63.4542000")
    ∷ ("MU-RR", "-20.06510000,57.6557000")
    ∷ ("MU-SA", "-20.46400000,57.5211000")
    ∷ ("MU-VP", "-20.30240000,57.4908000")
    ∷ ("MV-00", "3.77293000,72.9528000")
    ∷ ("MV-01", "-0.62413700,73.1092000")
    ∷ ("MV-02", "4.26451000,72.9528000")
    ∷ ("MV-03", "5.27480000,73.5816000")
    ∷ ("MV-04", "3.49522000,73.5082000")
    ∷ ("MV-05", "1.83216000,73.5114000")
    ∷ ("MV-07", "7.02774000,72.9797000")
    ∷ ("MV-08", "2.19286000,73.1252000")
    ∷ ("MV-12", "2.94938000,73.5688000")
    ∷ ("MV-13", "5.80628000,72.9751000")
    ∷ ("MV-14", "3.30689000,72.8315000")
    ∷ ("MV-17", "2.67806000,72.9017000")
    ∷ ("MV-20", "4.88218000,72.9751000")
    ∷ ("MV-23", "6.62205000,73.0473000")
    ∷ ("MV-24", "6.28509000,73.2145000")
    ∷ ("MV-25", "5.78713000,73.3837000")
    ∷ ("MV-26", "4.35708000,73.6135000")
    ∷ ("MV-27", "0.76441200,73.3741000")
    ∷ ("MV-28", "0.22176000,73.1060000")
    ∷ ("MV-29", "-0.28897000,73.4348000")
    ∷ ("MW-BA", "-15.03700000,35.0792000")
    ∷ ("MW-BL", "-15.68750000,34.9413000")
    ∷ ("MW-CK", "-16.15240000,34.6636000")
    ∷ ("MW-CR", "-15.73580000,35.2224000")
    ∷ ("MW-CT", "-10.02670000,33.8876000")
    ∷ ("MW-DE", "-14.20640000,34.1833000")
    ∷ ("MW-DO", "-13.62500000,33.8651000")
    ∷ ("MW-KS", "-12.93190000,33.4535000")
    ∷ ("MW-LI", "-14.04150000,33.7683000")
    ∷ ("MW-LK", "-12.07270000,34.7060000")
    ∷ ("MW-MC", "-13.69600000,33.0113000")
    ∷ ("MW-MG", "-14.37400000,35.3501000")
    ∷ ("MW-MH", "-14.95330000,35.5384000")
    ∷ ("MW-MU", "-15.98680000,35.5397000")
    ∷ ("MW-MW", "-15.63940000,34.5126000")
    ∷ ("MW-MZ", "-11.87920000,33.6587000")
    ∷ ("MW-NB", "-11.62810000,34.1604000")
    ∷ ("MW-NE", "-15.43660000,34.6946000")
    ∷ ("MW-NI", "-13.26590000,33.8763000")
    ∷ ("MW-NK", "-12.83980000,34.1715000")
    ∷ ("MW-NS", "-17.04790000,35.1003000")
    ∷ ("MW-NU", "-14.78430000,34.6861000")
    ∷ ("MW-PH", "-15.68830000,35.6670000")
    ∷ ("MW-RU", "-10.71140000,33.9530000")
    ∷ ("MW-SA", "-13.75720000,34.4903000")
    ∷ ("MW-TH", "-16.11350000,35.1071000")
    ∷ ("MW-ZO", "-15.45260000,35.4256000")
    ∷ []

pub all_places-ms_to_mw : all_places ms_to_mw ≡ true
unfolding all_places
all_places-ms_to_mw = refl
