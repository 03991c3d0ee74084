-- ===== src/Static/Regions/MkToMr.antt =====
-- static/regions.go, MK-01 to MR-NKC.
use locate.Prelude.{String, ◌≡◌, refl, true, [], ◌∷◌}
use locate.Prelude.Maps.{Map}
use locate.Clientgeo.Coordinates.{all_places}

abbrev pub mk_to_mr : Map String
mk_to_mr =
    ("MK-01", "41.95170000,21.4932000")
    ∷ ("MK-02", "42.01850000,21.5862000")
    ∷ ("MK-03", "41.63440000,22.8027000")
    ∷ ("MK-04", "41.04020000,21.2925000")
    ∷ ("MK-05", "41.17720000,22.5841000")
    ∷ ("MK-06", "41.94500000,20.8690000")
    ∷ ("MK-07", "41.46650000,22.7665000")
    ∷ ("MK-08", "41.84650000,21.0660000")
    ∷ ("MK-09", "42.07380000,21.4665000")
    ∷ ("MK-10", "41.29110000,22.5432000")
    ∷ ("MK-11", "41.54360000,22.6159000")
    ∷ ("MK-12", "41.23620000,20.5689000")
    ∷ ("MK-13", "41.72130000,21.7157000")
    ∷ ("MK-14", "41.86520000,22.5742000")
    ∷ ("MK-15", "41.47460000,21.0150000")
    ∷ ("MK-16", "41.85840000,20.8349000")
    ∷ ("MK-17", "42.02590000,21.5136000")
    ∷ ("MK-18", "41.24300000,22.3973000")
    ∷ ("MK-19", "41.78550000,20.8095000")
    ∷ ("MK-20", "41.58640000,21.9019000")
    ∷ ("MK-21", "41.54100000,20.5863000")
    ∷ ("MK-22", "41.33370000,20.8594000")
    ∷ ("MK-23", "41.91870000,22.7429000")
    ∷ ("MK-24", "41.37390000,22.2161000")
    ∷ ("MK-25", "41.25870000,21.1238000")
    ∷ ("MK-26", "41.24920000,22.6539000")
    ∷ ("MK-27", "41.46840000,21.4307000")
    ∷ ("MK-28", "41.42930000,20.9119000")
    ∷ ("MK-29", "42.06400000,21.3002000")
    ∷ ("MK-30", "41.91570000,21.1277000")
    ∷ ("MK-31", "41.60120000,20.8849000")
    ∷ ("MK-32", "41.80910000,21.5518000")
    ∷ ("MK-33", "41.82240000,22.4027000")
    ∷ ("MK-34", "41.97580000,21.6093000")
    ∷ ("MK-35", "42.03110000,21.1290000")
    ∷ ("MK-36", "41.32340000,22.0373000")
    ∷ ("MK-37", "41.76590000,22.2847000")
    ∷ ("MK-38", "41.97740000,21.3888000")
    ∷ ("MK-39", "41.93460000,21.4817000")
    ∷ ("MK-40", "41.51700000,20.9511000")
    ∷ ("MK-41", "41.51230000,22.3840000")
    ∷ ("MK-42", "41.97980000,22.3869000")
    ∷ ("MK-43", "42.05920000,22.1380000")
    ∷ ("MK-44", "42.24210000,22.2641000")
    ∷ ("MK-45", "41.30120000,21.3682000")
    ∷ ("MK-46", "41.37340000,21.2328000")
    ∷ ("MK-47", "42.02930000,21.7923000")
    ∷ ("MK-48", "42.14010000,21.5790000")
    ∷ ("MK-49", "41.72580000,21.9150000")
    ∷ ("MK-50", "41.63150000,20.6986000")
    ∷ ("MK-51", "42.03940000,22.5221000")
    ∷ ("MK-52", "41.63030000,21.2133000")
    ∷ ("MK-53", "41.14700000,21.4512000")
    ∷ ("MK-54", "41.37220000,22.1394000")
    ∷ ("MK-55", "41.02530000,21.6586000")
    ∷ ("MK-56", "41.42780000,22.8701000")
    ∷ ("MK-57", "41.57710000,21.0347000")
    ∷ ("MK-58", "41.02730000,20.8501000")
    ∷ ("MK-60", "41.79170000,22.8833000")
    ∷ ("MK-61", "41.44240000,21.1173000")
    ∷ ("MK-62", "41.28060000,21.6444000")
    ∷ ("MK-63", "41.93720000,22.1740000")
    ∷ ("MK-64", "41.63650000,22.4679000")
    ∷ ("MK-65", "42.18950000,22.1049000")
    ∷ ("MK-66", "41.02700000,21.0472000")
    ∷ ("MK-67", "41.47700000,21.8972000")
    ∷ ("MK-68", "41.97500000,21.2491000")
    ∷ ("MK-69", "41.87780000,21.9509000")
    ∷ ("MK-70", "41.83370000,21.3320000")
    ∷ ("MK-71", "42.20980000,21.8853000")
    ∷ ("MK-72", "41.18130000,20.6020000")
    ∷ ("MK-73", "41.38410000,22.6211000")
    ∷ ("MK-74", "41.83170000,21.4592000")
    ∷ ("MK-75", "42.08200000,21.0174000")
    ∷ ("MK-76", "42.04840000,20.8947000")
    ∷ ("MK-77", "41.97520000,21.4226000")
    ∷ ("MK-78", "41.46440000,20.5799000")
    ∷ ("MK-79", "41.99460000,21.4367000")
    ∷ ("MK-80", "41.58070000,21.5939000")
    ∷ ("MK-81", "41.86440000,22.2896000")
    ∷ ("MK-82", "42.13530000,21.3885000")
    ∷ ("MK-83", "41.68240000,22.1689000")
    ∷ ("MK-84", "42.03410000,21.4069000")
    ∷ ("MK-85", "41.89990000,21.6898000")
    ∷ ("ML-1", "13.79590000,-10.1984000")
    ∷ ("ML-3", "11.15500000,-6.5444100")
    ∷ ("ML-4", "13.58520000,-5.5195200")
    ∷ ("ML-5", "14.78730000,-3.2179500")
    ∷ ("ML-6", "19.90730000,-3.2950000")
    ∷ ("ML-7", "16.44820000,1.2641000")
    ∷ ("ML-8", "19.42580000,1.0942700")
    ∷ ("ML-BKO", "12.64300000,-8.0191700")
    ∷ ("MM-01", "23.70310000,95.1821000")
    ∷ ("MM-02", "18.51800000,96.1485000")
    ∷ ("MM-03", "19.64730000,94.8807000")
    ∷ ("MM-04", "20.62840000,96.0614000")
    ∷ ("MM-05", "13.61160000,98.7746000")
    ∷ ("MM-06", "17.11170000,96.1110000")
    ∷ ("MM-07", "16.74570000,95.1083000")
    ∷ ("MM-11", "25.79260000,97.2978000")
    ∷ ("MM-12", "19.26580000,97.3526000")
    ∷ ("MM-13", "17.39960000,97.6510000")
    ∷ ("MM-14", "21.92620000,93.3727000")
    ∷ ("MM-15", "16.30450000,97.8062000")
    ∷ ("MM-16", "20.27470000,93.6396000")
    ∷ ("MM-17", "21.51850000,98.1593000")
    ∷ ("MN-035", "49.00770000,104.2860000")
    ∷ ("MN-037", "49.35860000,106.3060000")
    ∷ ("MN-039", "47.71160000,110.5420000")
    ∷ ("MN-041", "50.14560000,99.8205000")
    ∷ ("MN-043", "46.80370000,92.4584000")
    ∷ ("MN-046", "49.69110000,92.8431000")
    ∷ ("MN-051", "46.18470000,113.9040000")
    ∷ ("MN-053", "43.46360000,103.7620000")
    ∷ ("MN-055", "45.77850000,102.8570000")
    ∷ ("MN-057", "48.61500000,96.1728000")
    ∷ ("MN-059", "45.41320000,106.1160000")
    ∷ ("MN-061", "48.77660000,114.2610000")
    ∷ ("MN-063", "44.40880000,109.8250000")
    ∷ ("MN-064", "47.74000000,108.3460000")
    ∷ ("MN-065", "45.46270000,95.7776000")
    ∷ ("MN-067", "49.00140000,103.1960000")
    ∷ ("MN-069", "45.83170000,99.6955000")
    ∷ ("MN-071", "48.88110000,89.8127000")
    ∷ ("MN-073", "48.00610000,100.9200000")
    ∷ ("MN-1", "47.95970000,106.9670000")
    ∷ ("MO-M", "22.13490000,113.5600000")
    ∷ ("MP-X01~", "14.14650000,145.2050000")
    ∷ ("MP-X02~", "14.99950000,145.6220000")
    ∷ ("MP-X03~", "15.19210000,145.7440000")
    ∷ ("MP-X04~", "16.35730000,145.6740000")
    ∷ ("MR-01", "18.02250000,-7.1915800")
    ∷ ("MR-02", "16.48320000,-9.6914300")
    ∷ ("MR-03", "16.58350000,-11.7106000")
    ∷ ("MR-04", "16.02960000,-12.8565000")
    ∷ ("MR-05", "17.08240000,-13.6298000")
    ∷ ("MR-06", "17.93390000,-14.6057000")
    ∷ ("MR-07", "20.76340000,-10.3339000")
    ∷ ("MR-08", "20.84290000,-16.1354000")
    ∷ ("MR-09", "18.61650000,-10.3284000")
    ∷ ("MR-10", "15.33520000,-12.1235000")
    ∷ ("MR-11", "24.33490000,-8.9941900")
    ∷ ("MR-12", "20.07340000,-15.3450000")
    ∷ ("MR-NKC", "18.13900000,-15.9200000")
    ∷ []

pub all_places-mk_to_mr : all_places mk_to_mr ≡ true
unfolding all_places
all_places-mk_to_mr = refl
