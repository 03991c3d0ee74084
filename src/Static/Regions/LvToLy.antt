-- ===== src/Static/Regions/LvToLy.antt =====
-- static/regions.go, LV-001 to LY-ZA.
use locate.Prelude.{String, ◌≡◌, refl, true, [], ◌∷◌}
use locate.Prelude.Maps.{Map}
use locate.Clientgeo.Coordinates.{all_places}

abbrev pub lv_to_ly : Map String
lv_to_ly =
    ("LV-001", "56.09790000,27.0929000")
    ∷ ("LV-002", "56.64590000,25.2280000")
    ∷ ("LV-003", "56.72320000,21.5943000")
    ∷ ("LV-004", "56.15920000,25.7883000")
    ∷ ("LV-005", "57.80740000,24.8231000")
    ∷ ("LV-006", "56.99150000,21.5583000")
    ∷ ("LV-007", "57.41510000,27.1693000")
    ∷ ("LV-008", "57.07940000,25.3384000")
    ∷ ("LV-009", "57.45560000,26.4999000")
    ∷ ("LV-010", "56.47820000,22.9664000")
    ∷ ("LV-011", "57.10800000,24.3855000")
    ∷ ("LV-012", "56.89130000,23.7639000")
    ∷ ("LV-013", "56.73160000,24.3555000")
    ∷ ("LV-014", "56.92400000,27.6041000")
    ∷ ("LV-015", "57.01510000,27.4348000")
    ∷ ("LV-016", "56.42230000,24.2690000")
    ∷ ("LV-017", "57.52930000,25.5920000")
    ∷ ("LV-018", "56.70030000,22.6412000")
    ∷ ("LV-019", "57.68090000,25.3393000")
    ∷ ("LV-020", "57.12030000,24.2464000")
    ∷ ("LV-021", "57.00990000,26.2750000")
    ∷ ("LV-022", "57.23960000,25.4307000")
    ∷ ("LV-023", "56.61320000,27.8618000")
    ∷ ("LV-024", "56.11830000,27.6246000")
    ∷ ("LV-026", "56.61720000,23.2005000")
    ∷ ("LV-027", "57.58370000,22.4057000")
    ∷ ("LV-028", "56.61420000,21.4069000")
    ∷ ("LV-029", "57.00170000,23.3222000")
    ∷ ("LV-030", "56.89540000,25.6656000")
    ∷ ("LV-031", "57.02210000,24.3875000")
    ∷ ("LV-032", "56.47780000,21.2507000")
    ∷ ("LV-033", "57.17230000,26.5803000")
    ∷ ("LV-034", "56.61320000,24.2055000")
    ∷ ("LV-035", "56.85450000,24.5695000")
    ∷ ("LV-036", "55.99970000,26.1768000")
    ∷ ("LV-037", "57.09980000,24.6350000")
    ∷ ("LV-038", "56.51090000,25.3016000")
    ∷ ("LV-039", "57.14480000,26.0091000")
    ∷ ("LV-040", "56.76860000,22.9132000")
    ∷ ("LV-043", "56.94030000,22.6964000")
    ∷ ("LV-044", "56.76450000,27.6287000")
    ∷ ("LV-045", "57.54150000,25.2116000")
    ∷ ("LV-046", "56.70310000,25.4447000")
    ∷ ("LV-047", "55.93190000,27.3415000")
    ∷ ("LV-048", "57.27980000,24.7863000")
    ∷ ("LV-049", "56.55590000,26.1972000")
    ∷ ("LV-050", "56.96260000,21.9858000")
    ∷ ("LV-051", "56.65410000,24.7290000")
    ∷ ("LV-052", "56.80540000,24.2628000")
    ∷ ("LV-053", "56.73320000,24.9523000")
    ∷ ("LV-054", "57.58790000,24.6925000")
    ∷ ("LV-055", "57.17750000,25.0726000")
    ∷ ("LV-056", "56.38410000,26.3240000")
    ∷ ("LV-057", "56.93620000,26.7126000")
    ∷ ("LV-058", "56.40590000,27.7960000")
    ∷ ("LV-059", "56.80500000,26.2344000")
    ∷ ("LV-060", "57.91370000,25.0276000")
    ∷ ("LV-061", "57.00170000,24.9581000")
    ∷ ("LV-062", "56.89130000,23.9438000")
    ∷ ("LV-063", "57.33170000,23.0567000")
    ∷ ("LV-064", "57.92600000,25.4406000")
    ∷ ("LV-065", "56.32460000,25.1056000")
    ∷ ("LV-066", "56.35350000,21.0871000")
    ∷ ("LV-067", "56.85770000,25.1269000")
    ∷ ("LV-068", "56.78900000,23.9561000")
    ∷ ("LV-069", "56.63770000,23.9479000")
    ∷ ("LV-070", "57.35750000,25.0767000")
    ∷ ("LV-071", "56.81150000,21.2474000")
    ∷ ("LV-072", "56.68680000,25.7310000")
    ∷ ("LV-073", "56.26740000,26.6960000")
    ∷ ("LV-074", "56.41890000,21.5550000")
    ∷ ("LV-075", "57.36570000,25.4447000")
    ∷ ("LV-076", "57.34110000,25.6410000")
    ∷ ("LV-078", "56.36370000,26.8189000")
    ∷ ("LV-079", "57.48880000,22.7688000")
    ∷ ("LV-080", "56.96490000,24.5818000")
    ∷ ("LV-081", "56.22590000,21.2115000")
    ∷ ("LV-082", "56.98530000,27.1093000")
    ∷ ("LV-083", "56.40870000,23.9643000")
    ∷ ("LV-084", "57.88510000,25.2607000")
    ∷ ("LV-085", "57.74600000,24.4100000")
    ∷ ("LV-086", "56.49050000,25.7187000")
    ∷ ("LV-087", "56.87080000,24.3650000")
    ∷ ("LV-088", "56.64080000,22.4024000")
    ∷ ("LV-089", "57.25520000,24.4305000")
    ∷ ("LV-090", "57.19800000,24.5327000")
    ∷ ("LV-091", "57.09980000,24.8272000")
    ∷ ("LV-092", "56.67860000,25.0971000")
    ∷ ("LV-093", "56.64460000,21.9901000")
    ∷ ("LV-094", "57.40250000,26.0091000")
    ∷ ("LV-095", "56.93620000,24.3323000")
    ∷ ("LV-096", "57.63560000,25.7924000")
    ∷ ("LV-097", "57.31700000,22.6192000")
    ∷ ("LV-098", "56.42500000,23.3140000")
    ∷ ("LV-099", "56.95050000,23.0121000")
    ∷ ("LV-100", "56.43200000,21.8331000")
    ∷ ("LV-101", "57.65870000,26.0635000")
    ∷ ("LV-102", "56.63360000,26.6430000")
    ∷ ("LV-103", "56.21650000,26.5122000")
    ∷ ("LV-104", "57.10800000,25.7024000")
    ∷ ("LV-105", "56.48230000,24.6268000")
    ∷ ("LV-107", "56.29010000,25.5306000")
    ∷ ("LV-108", "57.17750000,27.6287000")
    ∷ ("LV-109", "56.55180000,26.8884000")
    ∷ ("LV-110", "56.33910000,28.1072000")
    ∷ ("LV-DGV", "55.88140000,26.5517000")
    ∷ ("LV-JEL", "56.49390000,23.6461000")
    ∷ ("LV-JKB", "56.32270000,25.9607000")
    ∷ ("LV-JUR", "56.96080000,23.7352000")
    ∷ ("LV-LPX", "56.56160000,21.0399000")
    ∷ ("LV-REZ", "56.51600000,27.3335000")
    ∷ ("LV-RIX", "56.98780000,24.1235000")
    ∷ ("LV-VEN", "57.33670000,21.8185000")
    ∷ ("LV-VMR", "57.53740000,25.4161000")
    ∷ ("LY-AJ", "29.04190000,21.7400000")
    ∷ ("LY-BA", "31.28870000,20.6182000")
    ∷ ("LY-BU", "30.06900000,24.0559000")
    ∷ ("LY-GD", "30.33430000,10.6245000")
    ∷ ("LY-GT", "25.92010000,10.4298000")
    ∷ ("LY-JA", "32.00680000,21.7222000")
    ∷ ("LY-JI", "32.48890000,13.0352000")
    ∷ ("LY-JU", "27.93960000,17.2990000")
    ∷ ("LY-KF", "23.72310000,22.0744000")
    ∷ ("LY-MB", "32.53510000,14.1357000")
    ∷ ("LY-MI", "32.21510000,15.0186000")
    ∷ ("LY-MJ", "32.16820000,21.0132000")
    ∷ ("LY-MQ", "24.99770000,15.2592000")
    ∷ ("LY-MZ", "30.61050000,13.2861000")
    ∷ ("LY-NQ", "32.66610000,12.0109000")
    ∷ ("LY-QB", "31.81650000,22.5845000")
    ∷ ("LY-SB", "27.23710000,15.1065000")
    ∷ ("LY-SR", "30.20210000,17.4523000")
    ∷ ("LY-TN", "32.68670000,13.5154000")
    ∷ ("LY-WD", "26.35640000,12.6790000")
    ∷ ("LY-WS", "27.87320000,12.8352000")
    ∷ ("LY-ZA", "32.45510000,12.4868000")
    ∷ []

pub all_places-lv_to_ly : all_places lv_to_ly ≡ true
unfolding all_places
all_places-lv_to_ly = refl
