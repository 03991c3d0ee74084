-- ===== src/Static/Regions/BfToBo.antt =====
-- static/regions.go, BF-BAL to BO-T.
use locate.Prelude.{String, ◌≡◌, refl, true, [], ◌∷◌}
use locate.Prelude.Maps.{Map}
use locate.Clientgeo.Coordinates.{all_places}

abbrev pub bf_to_bo : Map String
bf_to_bo =
    ("BF-BAL", "11.82790000,-3.0687900")
    ∷ ("BF-BAM", "13.44550000,-1.5777800")
    ∷ ("BF-BAN", "12.16480000,-4.1084900")
    ∷ ("BF-BAZ", "11.93320000,-1.4648800")
    ∷ ("BF-BGR", "10.89790000,-3.4234900")
    ∷ ("BF-BLG", "11.47670000,-0.4366600")
    ∷ ("BF-BLK", "12.31430000,-2.1357200")
    ∷ ("BF-COM", "10.21560000,-4.4175700")
    ∷ ("BF-GAN", "12.20520000,-0.7686040")
    ∷ ("BF-GNA", "12.90570000,0.1152570")
    ∷ ("BF-GOU", "12.06770000,0.6103820")
    ∷ ("BF-HOU", "11.33550000,-4.1899800")
    ∷ ("BF-IOB", "11.01160000,-2.9696700")
    ∷ ("BF-KAD", "12.32670000,-1.4662000")
    ∷ ("BF-KEN", "11.41280000,-5.0272800")
    ∷ ("BF-KMD", "12.69710000,0.7759790")
    ∷ ("BF-KMP", "11.45190000,0.8988780")
    ∷ ("BF-KOP", "11.40790000,0.2042570")
    ∷ ("BF-KOS", "12.95870000,-3.8889400")
    ∷ ("BF-KOT", "12.15870000,-0.2915270")
    ∷ ("BF-KOW", "12.39330000,-1.8367000")
    ∷ ("BF-LER", "10.58790000,-5.2352000")
    ∷ ("BF-LOR", "13.87240000,-2.0708700")
    ∷ ("BF-MOU", "12.34860000,-3.3867500")
    ∷ ("BF-NAM", "13.16970000,-0.5040210")
    ∷ ("BF-NAO", "11.20280000,-1.1678200")
    ∷ ("BF-NAY", "12.65940000,-3.0331800")
    ∷ ("BF-NOU", "10.25100000,-3.3401100")
    ∷ ("BF-OUB", "12.64770000,-1.2856500")
    ∷ ("BF-OUD", "14.57690000,-0.4115970")
    ∷ ("BF-PAS", "12.87340000,-2.1066200")
    ∷ ("BF-PON", "10.25100000,-3.3401100")
    ∷ ("BF-SEN", "13.86730000,-0.0711400")
    ∷ ("BF-SIS", "11.18060000,-2.1088700")
    ∷ ("BF-SMT", "13.22700000,-1.0804500")
    ∷ ("BF-SNG", "12.25080000,-2.5729800")
    ∷ ("BF-SOM", "14.23520000,-1.3180100")
    ∷ ("BF-SOR", "13.28750000,-2.9596800")
    ∷ ("BF-TAP", "12.01910000,1.7946500")
    ∷ ("BF-TUI", "11.36590000,-3.4095500")
    ∷ ("BF-YAG", "13.32280000,0.6647840")
    ∷ ("BF-YAT", "13.68130000,-2.3252900")
    ∷ ("BF-ZIR", "11.61310000,-1.8318700")
    ∷ ("BF-ZON", "13.19390000,-2.3812700")
    ∷ ("BF-ZOU", "11.57110000,-0.9402340")
    ∷ ("BG-01", "41.74300000,23.5213000")
    ∷ ("BG-02", "42.53850000,27.2597000")
    ∷ ("BG-03", "43.20970000,27.5827000")
    ∷ ("BG-04", "42.80790000,25.6222000")
    ∷ ("BG-05", "43.80920000,22.7008000")
    ∷ ("BG-06", "43.43250000,23.8320000")
    ∷ ("BG-07", "42.92560000,25.2475000")
    ∷ ("BG-08", "43.68740000,27.9018000")
    ∷ ("BG-09", "41.53770000,25.5852000")
    ∷ ("BG-10", "42.23810000,22.9371000")
    ∷ ("BG-11", "43.00370000,24.5374000")
    ∷ ("BG-12", "43.48700000,23.1788000")
    ∷ ("BG-13", "42.19200000,24.1391000")
    ∷ ("BG-14", "42.60640000,22.8519000")
    ∷ ("BG-15", "43.49530000,24.6181000")
    ∷ ("BG-16", "42.30610000,24.8449000")
    ∷ ("BG-17", "43.62910000,26.5873000")
    ∷ ("BG-18", "43.62110000,25.9305000")
    ∷ ("BG-19", "43.93520000,27.0072000")
    ∷ ("BG-20", "42.71640000,26.2373000")
    ∷ ("BG-21", "41.66440000,24.6089000")
    ∷ ("BG-22", "42.67900000,23.3570000")
    ∷ ("BG-23", "42.28800000,23.6060000")
    ∷ ("BG-24", "42.47590000,25.5689000")
    ∷ ("BG-25", "43.22510000,26.3637000")
    ∷ ("BG-26", "41.84890000,25.8816000")
    ∷ ("BG-27", "43.29420000,26.9857000")
    ∷ ("BG-28", "42.29350000,26.6096000")
    ∷ ("BH-13", "26.22040000,50.5777000")
    ∷ ("BH-14", "25.96880000,50.5622000")
    ∷ ("BH-15", "26.26100000,50.6376000")
    ∷ ("BH-16", "26.13730000,50.5738000")
    ∷ ("BH-17", "26.16240000,50.4868000")
    ∷ ("BI-BB", "-3.10450000,29.3862000")
    ∷ ("BI-BL", "-3.61843000,29.4237000")
    ∷ ("BI-BM", "-3.39861000,29.3689000")
    ∷ ("BI-BR", "-3.85152000,29.5672000")
    ∷ ("BI-CA", "-3.11103000,30.5612000")
    ∷ ("BI-CI", "-2.86742000,29.2407000")
    ∷ ("BI-GI", "-3.48983000,29.9159000")
    ∷ ("BI-KI", "-2.56414000,30.1647000")
    ∷ ("BI-KR", "-3.14444000,30.1146000")
    ∷ ("BI-KY", "-3.02498000,29.6613000")
    ∷ ("BI-MA", "-4.21622000,29.7710000")
    ∷ ("BI-MU", "-3.25330000,29.6680000")
    ∷ ("BI-MW", "-3.51787000,29.6943000")
    ∷ ("BI-MY", "-2.89215000,30.3161000")
    ∷ ("BI-NG", "-2.86902000,29.8960000")
    ∷ ("BI-RT", "-3.84824000,30.1331000")
    ∷ ("BI-RY", "-3.44273000,30.3391000")
    ∷ ("BJ-AK", "10.70350000,1.5578200")
    ∷ ("BJ-AL", "11.43050000,2.9259800")
    ∷ ("BJ-AQ", "6.61657000,2.2226300")
    ∷ ("BJ-BO", "9.80668000,2.9036300")
    ∷ ("BJ-CO", "8.00513000,2.1725100")
    ∷ ("BJ-DO", "9.31506000,1.7714200")
    ∷ ("BJ-KO", "6.98499000,1.8123500")
    ∷ ("BJ-LI", "6.36623000,2.4219200")
    ∷ ("BJ-MO", "6.48568000,1.7946500")
    ∷ ("BJ-OU", "6.59423000,2.5517100")
    ∷ ("BJ-PL", "7.15213000,2.6048300")
    ∷ ("BJ-ZO", "7.22681000,2.0913500")
    ∷ ("BL-X00~", "17.90170000,-62.8288000")
    ∷ ("BM-DEV", "32.30330000,-64.7566000")
    ∷ ("BM-HA", "32.29380000,-64.7884000")
    ∷ ("BM-HAM", "32.34540000,-64.7197000")
    ∷ ("BM-PAG", "32.27840000,-64.7811000")
    ∷ ("BM-PEM", "32.29950000,-64.7997000")
    ∷ ("BM-SAN", "32.29850000,-64.8687000")
    ∷ ("BM-SG", "32.37470000,-64.6742000")
    ∷ ("BM-SGE", "32.36450000,-64.6998000")
    ∷ ("BM-SMI", "32.31410000,-64.7319000")
    ∷ ("BM-SOU", "32.25240000,-64.8375000")
    ∷ ("BM-WAR", "32.26580000,-64.8042000")
    ∷ ("BN-BE", "4.45555000,114.4080000")
    ∷ ("BN-BM", "4.90214000,114.9200000")
    ∷ ("BN-TE", "4.60249000,115.1910000")
    ∷ ("BN-TU", "4.64496000,114.6710000")
    ∷ ("BO-B", "-14.03580000,-64.5806000")
    ∷ ("BO-C", "-17.28840000,-65.6137000")
    ∷ ("BO-H", "-20.08480000,-63.9529000")
    ∷ ("BO-L", "-14.83350000,-68.2128000")
    ∷ ("BO-N", "-11.27300000,-67.4319000")
    ∷ ("BO-O", "-18.71510000,-67.5984000")
    ∷ ("BO-P", "-20.90330000,-66.7701000")
    ∷ ("BO-S", "-16.51680000,-61.1370000")
    ∷ ("BO-T", "-21.50390000,-63.8005000")
    ∷ []

pub all_places-bf_to_bo : all_places bf_to_bo ≡ true
unfolding all_places
all_places-bf_to_bo = refl
