-- ===== src/Static/Regions/InToIs.antt =====
-- static/regions.go, IN-AN to IS-8.
use locate.Prelude.{String, ◌≡◌, refl, true, [], ◌∷◌}
use locate.Prelude.Maps.{Map}
use locate.Clientgeo.Coordinates.{all_places}

abbrev pub in_to_is : Map String
in_to_is =
    ("IN-AN", "6.83654000,93.7895000")
    ∷ ("IN-AP", "16.48540000,79.2080000")
    ∷ ("IN-AR", "28.40560000,94.4673000")
    ∷ ("IN-AS", "26.33020000,92.9929000")
    ∷ ("IN-BR", "25.68530000,85.8134000")
    ∷ ("IN-CH", "30.74520000,76.7605000")
    ∷ ("IN-CT", "21.80440000,82.3069000")
    ∷ ("IN-DD", "20.42260000,72.8511000")
    ∷ ("IN-DL", "28.69000000,77.0856000")
    ∷ ("IN-DN", "20.18410000,73.0290000")
    ∷ ("IN-GA", "15.31330000,73.9951000")
    ∷ ("IN-GJ", "22.75010000,71.3013000")
    ∷ ("IN-HP", "31.67550000,77.2875000")
    ∷ ("IN-HR", "29.10030000,76.2710000")
    ∷ ("IN-JH", "23.52210000,85.0584000")
    ∷ ("IN-JK", "33.96580000,76.6395000")
    ∷ ("IN-KA", "14.36810000,75.6670000")
    ∷ ("IN-KL", "10.36660000,76.5237000")
    ∷ ("IN-LD", "11.22490000,72.7811000")
    ∷ ("IN-MH", "19.47230000,75.4647000")
    ∷ ("IN-ML", "25.48040000,91.3031000")
    ∷ ("IN-MN", "24.74420000,93.8457000")
    ∷ ("IN-MP", "22.94040000,78.4214000")
    ∷ ("IN-MZ", "23.20370000,92.8409000")
    ∷ ("IN-NL", "26.10940000,94.5664000")
    ∷ ("IN-OR", "20.62500000,84.4341000")
    ∷ ("IN-PB", "31.02450000,75.3762000")
    ∷ ("IN-PY", "10.92240000,79.7758000")
    ∷ ("IN-RJ", "26.74680000,73.8556000")
    ∷ ("IN-SK", "27.57090000,88.4482000")
    ∷ ("IN-TN", "11.01590000,78.2704000")
    ∷ ("IN-TR", "23.85190000,91.7031000")
    ∷ ("IN-UP", "26.72010000,80.9966000")
    ∷ ("IN-UT", "30.05760000,79.2841000")
    ∷ ("IN-WB", "23.05230000,87.7289000")
    ∷ ("IO-X01~", "-5.28054000,71.7425000")
    ∷ ("IQ-AN", "33.23170000,41.5307000")
    ∷ ("IQ-AR", "36.23710000,44.1806000")
    ∷ ("IQ-BA", "30.68020000,47.5605000")
    ∷ ("IQ-BB", "32.68330000,44.5099000")
    ∷ ("IQ-BG", "33.30600000,44.3827000")
    ∷ ("IQ-DA", "37.08750000,43.2281000")
    ∷ ("IQ-DI", "33.98820000,45.1046000")
    ∷ ("IQ-DQ", "31.19100000,46.4203000")
    ∷ ("IQ-KA", "32.50200000,43.7651000")
    ∷ ("IQ-MA", "31.80890000,47.0739000")
    ∷ ("IQ-MU", "30.43810000,45.2843000")
    ∷ ("IQ-NA", "30.93220000,43.7551000")
    ∷ ("IQ-NI", "35.92280000,42.7469000")
    ∷ ("IQ-QA", "31.60810000,45.1075000")
    ∷ ("IQ-SD", "34.34210000,43.7294000")
    ∷ ("IQ-SU", "35.33200000,45.4331000")
    ∷ ("IQ-TS", "35.32810000,44.0354000")
    ∷ ("IQ-WA", "32.61390000,45.5635000")
    ∷ ("IR-01", "37.85010000,46.7723000")
    ∷ ("IR-02", "36.66660000,45.6734000")
    ∷ ("IR-03", "38.91130000,47.7241000")
    ∷ ("IR-04", "32.98370000,52.4195000")
    ∷ ("IR-05", "33.23690000,46.8116000")
    ∷ ("IR-06", "28.82730000,51.4225000")
    ∷ ("IR-07", "35.51460000,51.6548000")
    ∷ ("IR-08", "31.99750000,50.5298000")
    ∷ ("IR-10", "31.34840000,48.7558000")
    ∷ ("IR-11", "36.39890000,48.2959000")
    ∷ ("IR-12", "35.42430000,54.4381000")
    ∷ ("IR-13", "27.42680000,61.0471000")
    ∷ ("IR-14", "29.40070000,53.0793000")
    ∷ ("IR-15", "30.12340000,56.9567000")
    ∷ ("IR-16", "35.57780000,46.8636000")
    ∷ ("IR-17", "34.27960000,46.6893000")
    ∷ ("IR-18", "30.69770000,50.7947000")
    ∷ ("IR-19", "37.05030000,49.5162000")
    ∷ ("IR-20", "33.53230000,48.4141000")
    ∷ ("IR-21", "36.23100000,52.2123000")
    ∷ ("IR-22", "34.55950000,49.9640000")
    ∷ ("IR-23", "27.64550000,56.2505000")
    ∷ ("IR-24", "34.83420000,48.5738000")
    ∷ ("IR-25", "32.70740000,55.5242000")
    ∷ ("IR-26", "34.66620000,50.9780000")
    ∷ ("IR-27", "37.31200000,55.0042000")
    ∷ ("IR-28", "36.05520000,49.6996000")
    ∷ ("IR-29", "32.45630000,59.4890000")
    ∷ ("IR-30", "35.58400000,58.7976000")
    ∷ ("IR-31", "37.57890000,57.0475000")
    ∷ ("IS-0", "64.08280000,-21.8646000")
    ∷ ("IS-1", "64.22770000,-21.5360000")
    ∷ ("IS-2", "63.94290000,-22.1206000")
    ∷ ("IS-3", "64.81830000,-21.3570000")
    ∷ ("IS-4", "65.70680000,-22.1562000")
    ∷ ("IS-5", "65.15150000,-19.7011000")
    ∷ ("IS-6", "65.37520000,-17.1782000")
    ∷ ("IS-7", "65.43630000,-15.2246000")
    ∷ ("IS-8", "64.01870000,-18.5336000")
    ∷ []

pub all_places-in_to_is : all_places in_to_is ≡ true
unfolding all_places
all_places-in_to_is = refl
