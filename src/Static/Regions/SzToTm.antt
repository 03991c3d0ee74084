-- ===== src/Static/Regions/SzToTm.antt =====
-- static/regions.go, SZ-HH to TM-M.
use locate.Prelude.{String, ◌≡◌, refl, true, [], ◌∷◌}
use locate.Prelude.Maps.{Map}
use locate.Clientgeo.Coordinates.{all_places}

abbrev pub sz_to_tm : Map String
sz_to_tm =
    ("SZ-HH", "-26.02650000,31.3220000")
    ∷ ("SZ-LU", "-26.52470000,31.8026000")
    ∷ ("SZ-MA", "-26.63420000,31.2402000")
    ∷ ("SZ-SH", "-27.02430000,31.4265000")
    ∷ ("TC-X01~", "21.81960000,-71.7669000")
    ∷ ("TC-X02~", "21.89160000,-71.9298000")
    ∷ ("TC-X03~", "21.79870000,-72.2861000")
    ∷ ("TC-X04~", "21.70340000,-71.4782000")
    ∷ ("TC-X05~", "21.47250000,-71.1370000")
    ∷ ("TC-X06~", "21.32950000,-71.2072000")
    ∷ ("TD-BA", "14.08230000,18.6222000")
    ∷ ("TD-BG", "14.53040000,16.9496000")
    ∷ ("TD-BO", "18.82490000,19.4819000")
    ∷ ("TD-CB", "11.46800000,16.2095000")
    ∷ ("TD-GR", "11.31220000,18.0946000")
    ∷ ("TD-HL", "12.76950000,15.8235000")
    ∷ ("TD-KA", "15.26410000,15.8001000")
    ∷ ("TD-LC", "13.43100000,14.6744000")
    ∷ ("TD-LO", "8.77035000,15.9306000")
    ∷ ("TD-LR", "8.12559000,16.2300000")
    ∷ ("TD-MA", "8.67832000,17.5493000")
    ∷ ("TD-MC", "9.08520000,18.4827000")
    ∷ ("TD-ME", "9.71626000,15.4373000")
    ∷ ("TD-MO", "9.26179000,14.7357000")
    ∷ ("TD-ND", "12.14130000,15.0579000")
    ∷ ("TD-OD", "13.47140000,21.1068000")
    ∷ ("TD-SA", "10.58110000,20.6054000")
    ∷ ("TD-SI", "12.23360000,21.1347000")
    ∷ ("TD-TA", "9.67051000,16.4994000")
    ∷ ("TD-TI", "21.47160000,16.6178000")
    ∷ ("TD-WF", "15.04570000,21.5596000")
    ∷ ("TD-X01~", "18.12860000,22.1045000")
    ∷ ("TF-X01~", "-49.31790000,69.2725000")
    ∷ ("TF-X02~", "-46.39740000,51.7536000")
    ∷ ("TF-X03~", "-17.06380000,42.7449000")
    ∷ ("TF-X1~", "-37.86100000,77.5353000")
    ∷ ("TG-C", "8.58780000,1.0046200")
    ∷ ("TG-K", "9.58879000,0.8213510")
    ∷ ("TG-M", "6.42521000,1.2466500")
    ∷ ("TG-P", "7.38285000,1.0597300")
    ∷ ("TG-S", "10.51360000,0.4153030")
    ∷ ("TH-10", "13.79300000,100.6260000")
    ∷ ("TH-11", "13.60600000,100.7040000")
    ∷ ("TH-12", "13.89330000,100.4070000")
    ∷ ("TH-13", "14.03400000,100.6250000")
    ∷ ("TH-14", "14.40200000,100.5220000")
    ∷ ("TH-15", "14.63350000,100.3570000")
    ∷ ("TH-16", "15.11470000,100.9440000")
    ∷ ("TH-17", "14.97460000,100.3430000")
    ∷ ("TH-18", "15.10550000,100.0130000")
    ∷ ("TH-19", "14.49140000,100.9090000")
    ∷ ("TH-20", "13.29880000,101.2780000")
    ∷ ("TH-21", "12.81250000,101.4020000")
    ∷ ("TH-22", "12.81170000,102.1390000")
    ∷ ("TH-23", "12.39250000,102.5410000")
    ∷ ("TH-24", "13.63420000,101.4190000")
    ∷ ("TH-25", "14.10810000,101.5940000")
    ∷ ("TH-26", "14.22490000,101.2100000")
    ∷ ("TH-27", "13.85890000,102.3840000")
    ∷ ("TH-30", "14.89230000,102.1030000")
    ∷ ("TH-31", "14.69900000,102.9710000")
    ∷ ("TH-32", "14.93550000,103.5880000")
    ∷ ("TH-33", "14.82480000,104.4180000")
    ∷ ("TH-34", "15.01370000,105.0160000")
    ∷ ("TH-35", "16.02250000,104.3240000")
    ∷ ("TH-36", "16.01380000,101.8770000")
    ∷ ("TH-37", "15.85830000,104.7660000")
    ∷ ("TH-38", "18.15650000,103.7520000")
    ∷ ("TH-39", "17.23920000,102.3110000")
    ∷ ("TH-40", "16.57620000,102.6830000")
    ∷ ("TH-41", "17.45110000,102.8820000")
    ∷ ("TH-42", "17.40990000,101.5170000")
    ∷ ("TH-43", "17.75530000,102.7540000")
    ∷ ("TH-44", "15.91510000,103.1880000")
    ∷ ("TH-45", "15.96010000,103.8270000")
    ∷ ("TH-46", "16.62240000,103.6790000")
    ∷ ("TH-47", "17.35770000,103.8450000")
    ∷ ("TH-48", "17.22270000,104.6280000")
    ∷ ("TH-49", "16.56360000,104.5310000")
    ∷ ("TH-50", "18.83680000,98.6967000")
    ∷ ("TH-51", "18.13330000,98.9979000")
    ∷ ("TH-52", "18.62960000,99.5707000")
    ∷ ("TH-53", "17.71880000,100.5310000")
    ∷ ("TH-54", "18.05770000,99.9263000")
    ∷ ("TH-55", "18.82640000,100.8370000")
    ∷ ("TH-56", "19.18660000,100.1600000")
    ∷ ("TH-57", "19.96070000,99.9059000")
    ∷ ("TH-58", "18.40430000,97.8911000")
    ∷ ("TH-60", "15.69430000,100.2500000")
    ∷ ("TH-61", "15.27000000,99.5275000")
    ∷ ("TH-62", "16.40090000,99.5098000")
    ∷ ("TH-63", "17.00430000,98.8441000")
    ∷ ("TH-64", "17.24350000,99.7009000")
    ∷ ("TH-65", "16.97480000,100.4900000")
    ∷ ("TH-66", "16.23210000,100.3740000")
    ∷ ("TH-67", "16.25890000,101.2100000")
    ∷ ("TH-70", "13.49640000,99.6128000")
    ∷ ("TH-71", "14.33170000,99.2969000")
    ∷ ("TH-72", "14.42980000,100.0340000")
    ∷ ("TH-73", "13.91700000,100.0720000")
    ∷ ("TH-74", "13.56550000,100.2250000")
    ∷ ("TH-75", "13.40360000,99.9736000")
    ∷ ("TH-76", "12.87270000,99.5964000")
    ∷ ("TH-77", "12.30530000,99.7274000")
    ∷ ("TH-80", "8.37448000,99.7819000")
    ∷ ("TH-81", "8.13330000,98.9840000")
    ∷ ("TH-82", "8.57678000,98.3940000")
    ∷ ("TH-83", "7.97108000,98.3472000")
    ∷ ("TH-84", "9.00480000,99.0107000")
    ∷ ("TH-85", "9.51717000,98.5800000")
    ∷ ("TH-86", "10.38090000,99.0755000")
    ∷ ("TH-90", "6.81212000,100.5680000")
    ∷ ("TH-91", "6.85827000,99.9633000")
    ∷ ("TH-92", "7.56967000,99.6467000")
    ∷ ("TH-93", "7.47276000,100.0620000")
    ∷ ("TH-94", "6.73910000,101.3810000")
    ∷ ("TH-95", "6.14264000,101.2180000")
    ∷ ("TH-96", "6.17758000,101.7270000")
    ∷ ("TJ-DU", "38.55180000,68.7695000")
    ∷ ("TJ-GB", "38.24920000,72.7189000")
    ∷ ("TJ-KT", "37.80630000,69.1055000")
    ∷ ("TJ-SU", "39.63350000,69.1609000")
    ∷ ("TK-X01~", "-9.34449000,-171.1950000")
    ∷ ("TL-AL", "-8.69661000,125.6190000")
    ∷ ("TL-AN", "-9.03099000,125.5510000")
    ∷ ("TL-BA", "-8.53729000,126.4760000")
    ∷ ("TL-BO", "-8.98073000,125.2190000")
    ∷ ("TL-CO", "-9.30758000,125.2330000")
    ∷ ("TL-DI", "-8.55429000,125.6680000")
    ∷ ("TL-ER", "-8.84722000,125.3440000")
    ∷ ("TL-LA", "-8.50164000,127.0010000")
    ∷ ("TL-LI", "-8.65272000,125.3080000")
    ∷ ("TL-MF", "-9.00434000,125.8130000")
    ∷ ("TL-MT", "-8.73700000,125.9680000")
    ∷ ("TL-OE", "-9.32323000,124.2410000")
    ∷ ("TL-VI", "-8.82470000,126.3860000")
    ∷ ("TM-A", "38.81030000,59.0838000")
    ∷ ("TM-B", "39.72440000,55.2571000")
    ∷ ("TM-D", "41.39810000,58.7690000")
    ∷ ("TM-L", "38.64210000,63.4465000")
    ∷ ("TM-M", "36.79940000,62.5938000")
    ∷ []

pub all_places-sz_to_tm : all_places sz_to_tm ≡ true
unfolding all_places
all_places-sz_to_tm = refl
