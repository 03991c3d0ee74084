-- ===== src/Static/Regions/ErToFo.antt =====
-- static/regions.go, ER-AN to FO-X00~.
use locate.Prelude.{String, ◌≡◌, refl, true, [], ◌∷◌}
use locate.Prelude.Maps.{Map}
use locate.Clientgeo.Coordinates.{all_places}

abbrev pub er_to_fo : Map String
er_to_fo =
    ("ER-AN", "15.27920000,39.0563000")
    ∷ ("ER-DK", "13.57120000,41.7389000")
    ∷ ("ER-DU", "15.61790000,40.1691000")
    ∷ ("ER-GB", "15.02970000,37.6058000")
    ∷ ("ER-MA", "14.85800000,38.9679000")
    ∷ ("ER-SK", "16.62630000,37.9175000")
    ∷ ("ES-A", "38.54180000,-0.5338790")
    ∷ ("ES-AB", "38.83400000,-1.9430900")
    ∷ ("ES-AL", "37.15630000,-2.2247300")
    ∷ ("ES-AV", "40.56110000,-4.8793400")
    ∷ ("ES-B", "41.65750000,2.0077700")
    ∷ ("ES-BA", "38.57310000,-6.2672400")
    ∷ ("ES-BU", "42.34800000,-3.6070300")
    ∷ ("ES-C", "43.10260000,-8.3973600")
    ∷ ("ES-CA", "36.48280000,-5.8248800")
    ∷ ("ES-CC", "39.72790000,-6.0820400")
    ∷ ("ES-CE", "35.88030000,-5.3410000")
    ∷ ("ES-CO", "37.96990000,-4.7478800")
    ∷ ("ES-CR", "38.89360000,-3.7472700")
    ∷ ("ES-CS", "40.22200000,-0.0975114")
    ∷ ("ES-CU", "39.91150000,-2.1512600")
    ∷ ("ES-GC", "27.94630000,-15.6013000")
    ∷ ("ES-GI", "42.08440000,2.7912300")
    ∷ ("ES-GR", "37.26650000,-3.2411000")
    ∷ ("ES-GU", "40.84220000,-2.5308700")
    ∷ ("ES-H", "37.62170000,-6.9024800")
    ∷ ("ES-HU", "42.18630000,-0.0128081")
    ∷ ("ES-J", "37.98290000,-3.4370300")
    ∷ ("ES-L", "42.01430000,1.1151800")
    ∷ ("ES-LO", "42.31790000,-2.4033700")
    ∷ ("ES-LU", "42.94670000,-7.4426600")
    ∷ ("ES-M", "40.45930000,-3.6701200")
    ∷ ("ES-MA", "36.83800000,-4.6860600")
    ∷ ("ES-ML", "35.29340000,-2.9401500")
    ∷ ("ES-MU", "37.91360000,-1.4575800")
    ∷ ("ES-NA", "42.74930000,-1.6384500")
    ∷ ("ES-O", "43.32610000,-5.8419600")
    ∷ ("ES-OR", "42.16090000,-7.5923400")
    ∷ ("ES-P", "42.33860000,-4.5986800")
    ∷ ("ES-PM", "39.61620000,2.9915600")
    ∷ ("ES-PO", "42.52570000,-8.4998000")
    ∷ ("ES-S", "43.21820000,-4.0208500")
    ∷ ("ES-SA", "40.83240000,-5.9926000")
    ∷ ("ES-SE", "37.43800000,-5.7391700")
    ∷ ("ES-SG", "41.20660000,-4.0467200")
    ∷ ("ES-SO", "41.64630000,-2.5592500")
    ∷ ("ES-SS", "43.14950000,-2.2243000")
    ∷ ("ES-T", "41.14760000,0.8730120")
    ∷ ("ES-TE", "40.62500000,-0.8094090")
    ∷ ("ES-TF", "28.25660000,-16.6144000")
    ∷ ("ES-TO", "39.74010000,-3.9513400")
    ∷ ("ES-V", "39.30030000,-0.7122450")
    ∷ ("ES-VA", "41.57150000,-4.8325600")
    ∷ ("ES-ZA", "41.68370000,-5.8429200")
    ∷ ("ET-AA", "8.96600000,38.7815000")
    ∷ ("ET-AF", "12.12320000,41.0236000")
    ∷ ("ET-AM", "11.69810000,37.7222000")
    ∷ ("ET-BE", "10.53960000,35.6017000")
    ∷ ("ET-DD", "9.56155000,42.0364000")
    ∷ ("ET-GA", "7.86869000,34.1775000")
    ∷ ("ET-HA", "9.29063000,42.1676000")
    ∷ ("ET-SN", "6.21467000,36.4494000")
    ∷ ("ET-SO", "7.09365000,43.5345000")
    ∷ ("ET-TI", "14.10030000,38.2158000")
    ∷ ("FI-02", "61.21480000,28.5567000")
    ∷ ("FI-03", "62.75210000,23.1486000")
    ∷ ("FI-04", "61.81520000,27.9693000")
    ∷ ("FI-05", "64.54960000,28.4410000")
    ∷ ("FI-06", "60.92390000,24.4224000")
    ∷ ("FI-07", "63.67510000,24.0097000")
    ∷ ("FI-08", "62.52460000,25.3934000")
    ∷ ("FI-09", "60.41640000,26.5799000")
    ∷ ("FI-10", "67.58110000,26.5614000")
    ∷ ("FI-11", "61.69360000,23.7573000")
    ∷ ("FI-12", "63.03540000,22.1482000")
    ∷ ("FI-13", "62.78790000,29.9637000")
    ∷ ("FI-14", "65.15990000,26.2356000")
    ∷ ("FI-15", "63.19330000,27.5702000")
    ∷ ("FI-16", "61.20340000,25.6876000")
    ∷ ("FI-17", "61.47730000,22.1012000")
    ∷ ("FI-18", "60.41790000,24.8475000")
    ∷ ("FI-19", "60.61340000,22.7128000")
    ∷ ("FJ-C", "-18.38230000,178.1320000")
    ∷ ("FJ-E", "-20.66570000,-178.7200000")
    ∷ ("FJ-N", "-16.81070000,178.3080000")
    ∷ ("FJ-R", "-12.49640000,177.0670000")
    ∷ ("FJ-W", "-21.68780000,174.6100000")
    ∷ ("FK-X01~", "-51.85930000,-59.1944000")
    ∷ ("FM-KSA", "5.35641000,162.9270000")
    ∷ ("FM-PNI", "6.86579000,158.1630000")
    ∷ ("FM-TRK", "7.44003000,151.8390000")
    ∷ ("FM-YAP", "9.58101000,138.1140000")
    ∷ ("FO-X00~", "62.13850000,-6.9594100")
    ∷ []

pub all_places-er_to_fo : all_places er_to_fo ≡ true
unfolding all_places
all_places-er_to_fo = refl
