-- ===== src/Static/Regions/CgToCn.antt =====
-- static/regions.go, CG-11 to CN-X01~.
use locate.Prelude.{String, ◌≡◌, refl, true, [], ◌∷◌}
use locate.Prelude.Maps.{Map}
use locate.Clientgeo.Coordinates.{all_places}

abbrev pub cg_to_cn : Map String
cg_to_cn =
    ("CG-11", "-4.36333000,13.4910000")
    ∷ ("CG-12", "-3.71115000,15.0436000")
    ∷ ("CG-13", "1.12682000,15.7466000")
    ∷ ("CG-14", "-2.04221000,15.3777000")
    ∷ ("CG-15", "0.03486060,14.5580000")
    ∷ ("CG-16", "-4.80537000,11.8590000")
    ∷ ("CG-2", "-3.23780000,13.4727000")
    ∷ ("CG-5", "-4.36840000,11.9549000")
    ∷ ("CG-7", "1.45488000,17.5344000")
    ∷ ("CG-8", "-0.39311400,15.9548000")
    ∷ ("CG-9", "-2.97914000,12.3646000")
    ∷ ("CG-BZV", "-4.06879000,15.3319000")
    ∷ ("CH-AG", "47.41760000,8.1999500")
    ∷ ("CH-AI", "47.30920000,9.3954800")
    ∷ ("CH-AR", "47.39110000,9.3972600")
    ∷ ("CH-BE", "46.79880000,7.6502600")
    ∷ ("CH-BL", "47.50560000,7.7266200")
    ∷ ("CH-BS", "47.56050000,7.5898000")
    ∷ ("CH-FR", "46.84110000,6.8521900")
    ∷ ("CH-GE", "46.23700000,6.1176400")
    ∷ ("CH-GL", "47.00960000,9.0565100")
    ∷ ("CH-GR", "46.67290000,9.5595300")
    ∷ ("CH-JU", "47.36360000,7.1981700")
    ∷ ("CH-LU", "47.09600000,8.1721900")
    ∷ ("CH-NE", "46.98930000,6.7607600")
    ∷ ("CH-NW", "46.93400000,8.4034400")
    ∷ ("CH-OW", "46.86860000,8.2059400")
    ∷ ("CH-SH", "47.72050000,8.6232000")
    ∷ ("CH-SO", "47.43250000,7.4199900")
    ∷ ("CH-SZ", "47.04550000,8.6857300")
    ∷ ("CH-TG", "47.58580000,9.1459300")
    ∷ ("CH-TI", "46.36040000,8.7901900")
    ∷ ("CH-UR", "46.80900000,8.6330100")
    ∷ ("CH-VD", "46.62040000,6.5118000")
    ∷ ("CH-VS", "46.20230000,7.6134700")
    ∷ ("CH-ZG", "47.15780000,8.5474700")
    ∷ ("CH-ZH", "47.42970000,8.6609000")
    ∷ ("CI-01", "5.46070000,-4.4285200")
    ∷ ("CI-02", "7.01394000,-6.5085900")
    ∷ ("CI-03", "9.82238000,-5.3681700")
    ∷ ("CI-04", "8.22668000,-4.8583800")
    ∷ ("CI-05", "6.76303000,-3.4772400")
    ∷ ("CI-06", "7.36283000,-7.7342300")
    ∷ ("CI-07", "6.85184000,-5.1541200")
    ∷ ("CI-08", "8.60755000,-3.4148500")
    ∷ ("CI-09", "5.47996000,-6.6752200")
    ∷ ("CI-10", "9.52894000,-7.3778100")
    ∷ ("CI-11", "7.05528000,-4.2371800")
    ∷ ("CI-12", "6.94728000,-5.8320100")
    ∷ ("CI-13", "5.52003000,-3.1275400")
    ∷ ("CI-14", "8.49071000,-6.2895600")
    ∷ ("CI-15", "5.63293000,-5.4946700")
    ∷ ("CI-16", "6.06215000,-4.0218700")
    ∷ ("CI-17", "8.11221000,-7.6751100")
    ∷ ("CI-18", "6.21780000,-5.8063100")
    ∷ ("CI-19", "5.99237000,-7.7945300")
    ∷ ("CK-X01~", "-20.02320000,-158.0890000")
    ∷ ("CK-X02~", "-19.27090000,-158.8920000")
    ∷ ("CK-X03~", "-21.93670000,-157.9090000")
    ∷ ("CK-X04~", "-21.20880000,-159.7890000")
    ∷ ("CK-X05~", "-19.83890000,-157.7070000")
    ∷ ("CK-X06~", "-20.18520000,-157.3120000")
    ∷ ("CK-X07~", "-18.89680000,-159.7710000")
    ∷ ("CK-X08~", "-10.91630000,-165.8020000")
    ∷ ("CK-X09~", "-10.06410000,-161.0650000")
    ∷ ("CK-X10~", "-10.40980000,-160.9630000")
    ∷ ("CK-X11~", "-8.99614000,-157.9560000")
    ∷ ("CL-AI", "-46.87160000,-73.3899000")
    ∷ ("CL-AN", "-23.31780000,-68.8739000")
    ∷ ("CL-AP", "-18.32070000,-69.6804000")
    ∷ ("CL-AR", "-38.73800000,-72.3806000")
    ∷ ("CL-AT", "-27.44690000,-69.9123000")
    ∷ ("CL-BI", "-36.97910000,-72.3475000")
    ∷ ("CL-CO", "-30.58380000,-70.7749000")
    ∷ ("CL-LI", "-34.52550000,-71.0756000")
    ∷ ("CL-LL", "-41.05920000,-72.9043000")
    ∷ ("CL-LR", "-40.11860000,-72.6829000")
    ∷ ("CL-MA", "-53.47230000,-71.3975000")
    ∷ ("CL-ML", "-35.60670000,-71.5811000")
    ∷ ("CL-RM", "-33.45680000,-70.7527000")
    ∷ ("CL-TA", "-20.24270000,-69.3683000")
    ∷ ("CL-VS", "-32.48840000,-70.9360000")
    ∷ ("CM-AD", "6.80472000,13.2170000")
    ∷ ("CM-CE", "4.73268000,11.7383000")
    ∷ ("CM-EN", "10.72270000,14.5367000")
    ∷ ("CM-ES", "3.78379000,14.1674000")
    ∷ ("CM-LT", "4.19380000,10.0932000")
    ∷ ("CM-NO", "8.90981000,13.8908000")
    ∷ ("CM-NW", "6.34548000,10.4002000")
    ∷ ("CM-OU", "5.36694000,10.5889000")
    ∷ ("CM-SU", "2.79256000,11.7310000")
    ∷ ("CM-SW", "5.12818000,9.2448100")
    ∷ ("CN-11", "39.94880000,116.3890000")
    ∷ ("CN-12", "39.37080000,117.3470000")
    ∷ ("CN-13", "38.52050000,115.3140000")
    ∷ ("CN-14", "37.75860000,112.3890000")
    ∷ ("CN-15", "41.59380000,111.6230000")
    ∷ ("CN-21", "41.38600000,123.0700000")
    ∷ ("CN-22", "43.29780000,126.4660000")
    ∷ ("CN-23", "46.84510000,127.9700000")
    ∷ ("CN-31", "31.09090000,121.4090000")
    ∷ ("CN-32", "32.98440000,119.9420000")
    ∷ ("CN-33", "29.10840000,119.9700000")
    ∷ ("CN-34", "31.95370000,117.2530000")
    ∷ ("CN-35", "26.40800000,118.1780000")
    ∷ ("CN-36", "27.63970000,116.0170000")
    ∷ ("CN-37", "36.32710000,118.1140000")
    ∷ ("CN-41", "33.90550000,113.4840000")
    ∷ ("CN-42", "30.98570000,112.2640000")
    ∷ ("CN-43", "27.66670000,111.7120000")
    ∷ ("CN-44", "23.79240000,113.7200000")
    ∷ ("CN-45", "23.74510000,108.7560000")
    ∷ ("CN-46", "19.18650000,109.8250000")
    ∷ ("CN-50", "30.01730000,107.7300000")
    ∷ ("CN-51", "30.54310000,102.3840000")
    ∷ ("CN-52", "26.80330000,106.5590000")
    ∷ ("CN-53", "24.46030000,101.6610000")
    ∷ ("CN-54", "31.45150000,88.4137000")
    ∷ ("CN-61", "33.77130000,108.3630000")
    ∷ ("CN-62", "38.73930000,100.7350000")
    ∷ ("CN-63", "35.26520000,96.2377000")
    ∷ ("CN-64", "37.17620000,106.0380000")
    ∷ ("CN-65", "41.12200000,85.4253000")
    ∷ ("CN-X01~", "15.78330000,111.2010000")
    ∷ []

pub all_places-cg_to_cn : all_places cg_to_cn ≡ true
unfolding all_places
all_places-cg_to_cn = refl
