-- ===== src/Static/Regions/FrToGa.antt =====
-- static/regions.go, FR-01 to GA-9.
use locate.Prelude.{String, ◌≡◌, refl, true, [], ◌∷◌}
use locate.Prelude.Maps.{Map}
use locate.Clientgeo.Coordinates.{all_places}

abbrev pub fr_to_ga : Map String
fr_to_ga =
    ("FR-01", "46.08400000,5.3774400")
    ∷ ("FR-02", "49.56670000,3.5155400")
    ∷ ("FR-03", "46.40800000,3.1869800")
    ∷ ("FR-04", "44.04540000,6.2482200")
    ∷ ("FR-05", "44.67320000,6.3764800")
    ∷ ("FR-06", "43.86990000,7.1865100")
    ∷ ("FR-07", "44.80140000,4.4999000")
    ∷ ("FR-08", "49.54030000,4.6241700")
    ∷ ("FR-09", "42.90460000,1.5365400")
    ∷ ("FR-10", "48.31250000,4.1625200")
    ∷ ("FR-11", "43.10040000,2.4815700")
    ∷ ("FR-12", "44.28840000,2.6638300")
    ∷ ("FR-13", "43.53240000,5.4044400")
    ∷ ("FR-14", "49.06010000,-0.2887240")
    ∷ ("FR-15", "45.15920000,2.7482100")
    ∷ ("FR-16", "45.69980000,0.1548280")
    ∷ ("FR-17", "45.84410000,-0.7143010")
    ∷ ("FR-18", "47.13560000,2.5190700")
    ∷ ("FR-19", "45.35500000,1.9010500")
    ∷ ("FR-21", "47.40030000,4.7699100")
    ∷ ("FR-22", "48.43830000,-2.9323900")
    ∷ ("FR-23", "46.07050000,2.0428100")
    ∷ ("FR-24", "45.15920000,0.7805050")
    ∷ ("FR-25", "47.15840000,6.3189500")
    ∷ ("FR-27", "49.04140000,0.9295100")
    ∷ ("FR-28", "48.35640000,1.3670400")
    ∷ ("FR-29", "48.33090000,-3.9264400")
    ∷ ("FR-2A", "41.84490000,9.0225200")
    ∷ ("FR-2B", "42.39960000,9.2309000")
    ∷ ("FR-30", "43.99140000,4.1893900")
    ∷ ("FR-31", "43.54570000,1.4167300")
    ∷ ("FR-32", "43.68090000,0.5374960")
    ∷ ("FR-33", "44.73390000,-0.5155460")
    ∷ ("FR-34", "43.55240000,3.2731600")
    ∷ ("FR-35", "48.14280000,-1.6562300")
    ∷ ("FR-36", "46.80030000,1.6163600")
    ∷ ("FR-37", "47.29030000,0.7136490")
    ∷ ("FR-38", "45.24780000,5.4175000")
    ∷ ("FR-39", "46.73200000,5.7284500")
    ∷ ("FR-40", "43.96440000,-0.7923070")
    ∷ ("FR-41", "47.54840000,1.5923400")
    ∷ ("FR-42", "45.70600000,4.1623900")
    ∷ ("FR-43", "45.12540000,3.7236200")
    ∷ ("FR-44", "47.36370000,-1.6025000")
    ∷ ("FR-45", "47.90070000,2.1923800")
    ∷ ("FR-46", "44.63270000,1.6107900")
    ∷ ("FR-47", "44.38290000,0.4497420")
    ∷ ("FR-48", "44.49090000,3.5481100")
    ∷ ("FR-49", "47.37710000,-0.5278470")
    ∷ ("FR-50", "49.16370000,-1.3472700")
    ∷ ("FR-51", "49.02200000,4.2639500")
    ∷ ("FR-52", "48.15520000,5.2407600")
    ∷ ("FR-53", "48.15620000,-0.6353120")
    ∷ ("FR-54", "48.70550000,6.2760300")
    ∷ ("FR-55", "48.95050000,5.5088400")
    ∷ ("FR-56", "47.86990000,-2.8935900")
    ∷ ("FR-57", "49.08450000,6.5186200")
    ∷ ("FR-58", "47.15050000,3.5683700")
    ∷ ("FR-59", "50.40300000,3.2270900")
    ∷ ("FR-60", "49.39670000,2.6432300")
    ∷ ("FR-61", "48.65330000,0.0632139")
    ∷ ("FR-63", "45.81350000,3.2684400")
    ∷ ("FR-65", "43.05990000,0.1392300")
    ∷ ("FR-67", "48.61790000,7.5662800")
    ∷ ("FR-68", "47.88600000,7.2535900")
    ∷ ("FR-69", "45.84100000,4.6484100")
    ∷ ("FR-70", "47.69730000,6.1672200")
    ∷ ("FR-71", "46.67890000,4.5138000")
    ∷ ("FR-72", "47.96820000,0.1706790")
    ∷ ("FR-73", "45.48320000,6.4709800")
    ∷ ("FR-74", "46.05020000,6.5182300")
    ∷ ("FR-75", "48.85940000,2.3434700")
    ∷ ("FR-76", "49.59360000,1.1513000")
    ∷ ("FR-77", "48.55150000,2.8420100")
    ∷ ("FR-78", "48.81910000,1.9005800")
    ∷ ("FR-79", "46.56810000,-0.3008260")
    ∷ ("FR-80", "49.87570000,2.3602900")
    ∷ ("FR-81", "43.80240000,2.1373100")
    ∷ ("FR-82", "44.06570000,1.2327700")
    ∷ ("FR-83", "43.40950000,6.2710300")
    ∷ ("FR-84", "43.99810000,5.2154300")
    ∷ ("FR-85", "46.68930000,-1.3182700")
    ∷ ("FR-86", "46.53380000,0.4127460")
    ∷ ("FR-87", "45.84650000,1.2185700")
    ∷ ("FR-88", "48.24450000,6.6705300")
    ∷ ("FR-89", "47.77150000,3.6426200")
    ∷ ("FR-90", "47.65680000,6.9367500")
    ∷ ("FR-91", "48.56290000,2.2958800")
    ∷ ("FR-92", "48.85570000,2.1970600")
    ∷ ("FR-93", "48.92890000,2.5191600")
    ∷ ("FR-94", "48.77520000,2.5155000")
    ∷ ("FR-95", "49.07540000,2.2336600")
    ∷ ("FR-GF", "3.85831000,-53.1324000")
    ∷ ("FR-GP", "16.18810000,-61.6822000")
    ∷ ("FR-MQ", "14.72450000,-61.0640000")
    ∷ ("FR-RE", "-21.11550000,55.5405000")
    ∷ ("FR-YT", "-12.77670000,45.2769000")
    ∷ ("GA-1", "0.32201000,10.1365000")
    ∷ ("GA-2", "-1.13187000,13.6198000")
    ∷ ("GA-3", "-0.37415600,10.5724000")
    ∷ ("GA-4", "-1.48647000,11.1859000")
    ∷ ("GA-5", "-2.97713000,10.9768000")
    ∷ ("GA-6", "0.72338000,12.8739000")
    ∷ ("GA-7", "-0.97267200,12.5284000")
    ∷ ("GA-8", "-0.68254800,8.9956600")
    ∷ ("GA-9", "1.43947000,11.8313000")
    ∷ []

pub all_places-fr_to_ga : all_places fr_to_ga ≡ true
unfolding all_places
all_places-fr_to_ga = refl
