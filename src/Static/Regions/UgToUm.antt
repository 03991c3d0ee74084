-- ===== src/Static/Regions/UgToUm.antt =====
-- static/regions.go, UG-101 to UM-95.
use locate.Prelude.{String, ◌≡◌, refl, true, [], ◌∷◌}
use locate.Prelude.Maps.{Map}
use locate.Clientgeo.Coordinates.{all_places}

abbrev pub ug_to_um : Map String
ug_to_um =
    ("UG-101", "-0.35595400,32.2457000")
    ∷ ("UG-102", "0.36001900,32.6048000")
    ∷ ("UG-103", "0.84124600,31.9587000")
    ∷ ("UG-104", "0.79676300,32.5615000")
    ∷ ("UG-105", "-0.43198000,31.8532000")
    ∷ ("UG-106", "-0.00825711,32.0899000")
    ∷ ("UG-107", "0.58882000,31.4889000")
    ∷ ("UG-108", "0.30460400,32.8051000")
    ∷ ("UG-109", "1.36245000,32.3765000")
    ∷ ("UG-110", "-0.75301900,31.5253000")
    ∷ ("UG-111", "0.02466980,31.3783000")
    ∷ ("UG-112", "0.98479500,32.8933000")
    ∷ ("UG-113", "0.19733300,32.4268000")
    ∷ ("UG-114", "0.42844000,32.0449000")
    ∷ ("UG-115", "1.10855000,32.1561000")
    ∷ ("UG-116", "-0.26999700,31.1783000")
    ∷ ("UG-117", "0.18746100,33.0039000")
    ∷ ("UG-118", "-0.11463400,31.6487000")
    ∷ ("UG-119", "0.13567400,32.0026000")
    ∷ ("UG-120", "0.09683290,33.2585000")
    ∷ ("UG-121", "0.19609300,31.6617000")
    ∷ ("UG-122", "-0.15779000,31.8386000")
    ∷ ("UG-123", "1.14122000,31.6487000")
    ∷ ("UG-124", "-0.42104500,31.4330000")
    ∷ ("UG-201", "0.53673700,33.7627000")
    ∷ ("UG-202", "0.41201400,34.0041000")
    ∷ ("UG-203", "0.69984700,33.5689000")
    ∷ ("UG-204", "0.49286700,33.3074000")
    ∷ ("UG-205", "0.88895900,33.1226000")
    ∷ ("UG-206", "1.35008000,34.4652000")
    ∷ ("UG-207", "1.93889000,34.0087000")
    ∷ ("UG-208", "1.44461000,33.9137000")
    ∷ ("UG-209", "1.03446000,34.2131000")
    ∷ ("UG-210", "1.18799000,33.6880000")
    ∷ ("UG-211", "1.73376000,33.5911000")
    ∷ ("UG-212", "0.73770900,34.0805000")
    ∷ ("UG-213", "1.66885000,33.2000000")
    ∷ ("UG-214", "0.27704900,33.5556000")
    ∷ ("UG-215", "1.15945000,34.3234000")
    ∷ ("UG-216", "2.14100000,33.6359000")
    ∷ ("UG-217", "1.09635000,33.9867000")
    ∷ ("UG-218", "1.26283000,34.6781000")
    ∷ ("UG-219", "0.88170700,33.9295000")
    ∷ ("UG-220", "1.05681000,33.4858000")
    ∷ ("UG-221", "0.88659700,34.3120000")
    ∷ ("UG-222", "0.87756900,33.6846000")
    ∷ ("UG-223", "1.03321000,34.3979000")
    ∷ ("UG-224", "1.34244000,34.1286000")
    ∷ ("UG-225", "1.29497000,34.2883000")
    ∷ ("UG-226", "1.24749000,33.1662000")
    ∷ ("UG-227", "1.03603000,33.7704000")
    ∷ ("UG-228", "1.45896000,34.5990000")
    ∷ ("UG-229", "0.73824600,33.3432000")
    ∷ ("UG-230", "0.24626200,33.8049000")
    ∷ ("UG-231", "1.51075000,33.7704000")
    ∷ ("UG-232", "1.50212000,33.4424000")
    ∷ ("UG-301", "3.21788000,31.7282000")
    ∷ ("UG-302", "1.89554000,32.5241000")
    ∷ ("UG-303", "2.78870000,31.1339000")
    ∷ ("UG-304", "2.87081000,32.4630000")
    ∷ ("UG-305", "3.36108000,33.3078000")
    ∷ ("UG-306", "2.94270000,33.9681000")
    ∷ ("UG-307", "2.23366000,32.9139000")
    ∷ ("UG-308", "2.67000000,34.7120000")
    ∷ ("UG-309", "3.62202000,31.7226000")
    ∷ ("UG-310", "2.44381000,31.2582000")
    ∷ ("UG-311", "1.76261000,34.6179000")
    ∷ ("UG-312", "2.87543000,32.8933000")
    ∷ ("UG-313", "3.52312000,31.2996000")
    ∷ ("UG-314", "1.57677000,32.6461000")
    ∷ ("UG-315", "3.70606000,34.0364000")
    ∷ ("UG-316", "3.51005000,30.9725000")
    ∷ ("UG-317", "2.70787000,33.7723000")
    ∷ ("UG-318", "1.88125000,33.0778000")
    ∷ ("UG-319", "2.95110000,32.0347000")
    ∷ ("UG-320", "3.22920000,30.9101000")
    ∷ ("UG-321", "2.37882000,32.5298000")
    ∷ ("UG-322", "2.89176000,33.3941000")
    ∷ ("UG-323", "2.27138000,33.2107000")
    ∷ ("UG-324", "1.67258000,34.8830000")
    ∷ ("UG-325", "-0.35199500,30.3282000")
    ∷ ("UG-326", "2.28756000,32.6929000")
    ∷ ("UG-327", "3.56903000,32.7269000")
    ∷ ("UG-328", "2.42782000,34.3004000")
    ∷ ("UG-329", "2.57094000,31.8584000")
    ∷ ("UG-330", "2.47637000,33.3294000")
    ∷ ("UG-331", "2.54111000,30.9019000")
    ∷ ("UG-401", "0.73809200,30.0508000")
    ∷ ("UG-402", "-0.47111900,30.1245000")
    ∷ ("UG-403", "1.47115000,31.0319000")
    ∷ ("UG-404", "-1.23122000,30.0088000")
    ∷ ("UG-405", "0.59692600,30.2731000")
    ∷ ("UG-406", "0.13827900,29.9844000")
    ∷ ("UG-407", "0.90342800,31.0242000")
    ∷ ("UG-408", "-1.21098000,29.6865000")
    ∷ ("UG-409", "1.66477000,31.7350000")
    ∷ ("UG-410", "-0.24229800,30.8704000")
    ∷ ("UG-411", "-0.97640500,30.3139000")
    ∷ ("UG-412", "-0.71003800,29.9095000")
    ∷ ("UG-413", "0.21224700,30.5053000")
    ∷ ("UG-414", "-0.83525400,29.7256000")
    ∷ ("UG-415", "0.59922300,30.6742000")
    ∷ ("UG-416", "-0.07507720,30.4693000")
    ∷ ("UG-417", "-0.84819100,30.8706000")
    ∷ ("UG-419", "1.95839000,31.4315000")
    ∷ ("UG-420", "2.02863000,32.0563000")
    ∷ ("UG-421", "0.46366300,31.0230000")
    ∷ ("UG-422", "-0.63682800,30.0476000")
    ∷ ("UG-423", "1.02038000,30.3756000")
    ∷ ("UG-424", "-0.26999700,29.9095000")
    ∷ ("UG-425", "-0.63682800,30.3454000")
    ∷ ("UM-67", "16.72730000,-169.5380000")
    ∷ ("UM-71", "28.20600000,-177.3760000")
    ∷ ("UM-76", "18.40430000,-75.0110000")
    ∷ ("UM-79", "19.28630000,166.6430000")
    ∷ ("UM-81", "0.19493100,-176.4790000")
    ∷ ("UM-84", "0.80217000,-176.6380000")
    ∷ ("UM-86", "-0.38026800,-160.0180000")
    ∷ ("UM-95", "5.88359000,-162.0760000")
    ∷ []

pub all_places-ug_to_um : all_places ug_to_um ≡ true
unfolding all_places
all_places-ug_to_um = refl
