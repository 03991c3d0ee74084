-- ===== src/Static/Regions/TnToTw.antt =====
-- static/regions.go, TN-11 to TW-YUN.
use locate.Prelude.{String, ◌≡◌, refl, true, [], ◌∷◌}
use locate.Prelude.Maps.{Map}
use locate.Clientgeo.Coordinates.{all_places}

abbrev pub tn_to_tw : Map String
tn_to_tw =
    ("TN-11", "36.77910000,10.1724000")
    ∷ ("TN-13", "36.61250000,10.1941000")
    ∷ ("TN-14", "36.79030000,9.9451400")
    ∷ ("TN-21", "36.67940000,10.7319000")
    ∷ ("TN-22", "36.34270000,9.9691600")
    ∷ ("TN-23", "37.11090000,9.6733200")
    ∷ ("TN-31", "36.58280000,9.3760500")
    ∷ ("TN-32", "36.61550000,8.6206400")
    ∷ ("TN-33", "36.09650000,8.6956500")
    ∷ ("TN-34", "35.55970000,9.3374500")
    ∷ ("TN-41", "35.61540000,9.7889200")
    ∷ ("TN-42", "35.25290000,8.7877400")
    ∷ ("TN-43", "34.97570000,9.4332800")
    ∷ ("TN-51", "35.93230000,10.4255000")
    ∷ ("TN-52", "35.62250000,10.7538000")
    ∷ ("TN-53", "35.35940000,10.6621000")
    ∷ ("TN-61", "34.64950000,11.0329000")
    ∷ ("TN-71", "34.42330000,8.7952100")
    ∷ ("TN-72", "33.94760000,8.0743400")
    ∷ ("TN-73", "33.36210000,8.8479100")
    ∷ ("TN-81", "33.75710000,9.8598700")
    ∷ ("TN-82", "33.44030000,10.6522000")
    ∷ ("TN-83", "32.15400000,9.8851400")
    ∷ ("TO-01", "-21.36720000,-174.9410000")
    ∷ ("TO-02", "-19.75700000,-174.3170000")
    ∷ ("TO-03", "-15.95580000,-173.7570000")
    ∷ ("TO-04", "-21.17180000,-175.1550000")
    ∷ ("TO-05", "-18.61180000,-173.9880000")
    ∷ ("TR-01", "37.40060000,35.7555000")
    ∷ ("TR-02", "37.81020000,38.3390000")
    ∷ ("TR-03", "38.67840000,30.6938000")
    ∷ ("TR-04", "39.59250000,43.3647000")
    ∷ ("TR-05", "40.63790000,35.7627000")
    ∷ ("TR-06", "39.82900000,32.5780000")
    ∷ ("TR-07", "37.11410000,30.9564000")
    ∷ ("TR-08", "41.01750000,41.8331000")
    ∷ ("TR-09", "37.72920000,27.9573000")
    ∷ ("TR-10", "39.71930000,27.8355000")
    ∷ ("TR-11", "40.03870000,30.2002000")
    ∷ ("TR-12", "39.07430000,40.6460000")
    ∷ ("TR-13", "38.51550000,42.3462000")
    ∷ ("TR-14", "40.58540000,31.6806000")
    ∷ ("TR-15", "37.50010000,30.1627000")
    ∷ ("TR-16", "40.13140000,29.0593000")
    ∷ ("TR-17", "40.05530000,26.8233000")
    ∷ ("TR-18", "40.70870000,33.2142000")
    ∷ ("TR-19", "40.61490000,34.7110000")
    ∷ ("TR-20", "37.75390000,29.2821000")
    ∷ ("TR-21", "38.02610000,40.2706000")
    ∷ ("TR-22", "40.95790000,26.4697000")
    ∷ ("TR-23", "38.57180000,39.3702000")
    ∷ ("TR-24", "39.68740000,39.5121000")
    ∷ ("TR-25", "39.96780000,41.4030000")
    ∷ ("TR-26", "39.62970000,31.0894000")
    ∷ ("TR-27", "36.99880000,37.2462000")
    ∷ ("TR-28", "40.53790000,38.6055000")
    ∷ ("TR-29", "40.28120000,39.3544000")
    ∷ ("TR-30", "37.60970000,44.0804000")
    ∷ ("TR-31", "36.48760000,36.2284000")
    ∷ ("TR-32", "37.89230000,30.8180000")
    ∷ ("TR-33", "36.66140000,33.8268000")
    ∷ ("TR-34", "41.12850000,28.8463000")
    ∷ ("TR-35", "38.24260000,27.3977000")
    ∷ ("TR-36", "40.36710000,43.0740000")
    ∷ ("TR-37", "41.51140000,33.6356000")
    ∷ ("TR-38", "38.71680000,35.9256000")
    ∷ ("TR-39", "41.62010000,27.4916000")
    ∷ ("TR-40", "39.35480000,34.1308000")
    ∷ ("TR-41", "40.90080000,29.9396000")
    ∷ ("TR-42", "38.04000000,32.4690000")
    ∷ ("TR-43", "39.34710000,29.5498000")
    ∷ ("TR-44", "38.51440000,38.1872000")
    ∷ ("TR-45", "38.71150000,28.1324000")
    ∷ ("TR-46", "37.92780000,37.0013000")
    ∷ ("TR-47", "37.42820000,40.9525000")
    ∷ ("TR-48", "37.05010000,28.6482000")
    ∷ ("TR-49", "38.91240000,41.9034000")
    ∷ ("TR-50", "38.74150000,34.6408000")
    ∷ ("TR-51", "37.89660000,34.7093000")
    ∷ ("TR-52", "40.83760000,37.4229000")
    ∷ ("TR-53", "40.94660000,40.8691000")
    ∷ ("TR-54", "40.65960000,30.4439000")
    ∷ ("TR-55", "41.27610000,36.0198000")
    ∷ ("TR-56", "37.91590000,42.2212000")
    ∷ ("TR-57", "41.58940000,34.8226000")
    ∷ ("TR-58", "39.42900000,37.2907000")
    ∷ ("TR-59", "41.08240000,27.4547000")
    ∷ ("TR-60", "40.44420000,36.5724000")
    ∷ ("TR-61", "40.79880000,39.8034000")
    ∷ ("TR-62", "39.15190000,39.6357000")
    ∷ ("TR-63", "37.31890000,39.0508000")
    ∷ ("TR-64", "38.49420000,29.3636000")
    ∷ ("TR-65", "38.52120000,43.5684000")
    ∷ ("TR-66", "39.54760000,35.1328000")
    ∷ ("TR-67", "41.24810000,31.8206000")
    ∷ ("TR-68", "38.35660000,33.8772000")
    ∷ ("TR-69", "40.28590000,40.3056000")
    ∷ ("TR-70", "37.22620000,33.3026000")
    ∷ ("TR-71", "39.90110000,33.7780000")
    ∷ ("TR-72", "37.73430000,41.4262000")
    ∷ ("TR-73", "37.40470000,42.5455000")
    ∷ ("TR-74", "41.58570000,32.4688000")
    ∷ ("TR-75", "41.18090000,42.8342000")
    ∷ ("TR-76", "39.81100000,44.0317000")
    ∷ ("TR-77", "40.61540000,29.2036000")
    ∷ ("TR-78", "41.23470000,32.5067000")
    ∷ ("TR-79", "36.83290000,37.0035000")
    ∷ ("TR-80", "37.17370000,36.3011000")
    ∷ ("TR-81", "40.86310000,31.3231000")
    ∷ ("TT-ARI", "10.62840000,-61.2804000")
    ∷ ("TT-CHA", "10.53590000,-61.4134000")
    ∷ ("TT-CTT", "10.45190000,-61.3425000")
    ∷ ("TT-DMN", "10.71280000,-61.5778000")
    ∷ ("TT-ETO", "11.28990000,-60.6001000")
    ∷ ("TT-PED", "10.14590000,-61.4269000")
    ∷ ("TT-POS", "10.66470000,-61.5204000")
    ∷ ("TT-PRT", "10.20390000,-61.3096000")
    ∷ ("TT-PTF", "10.16690000,-61.6685000")
    ∷ ("TT-RCM", "10.28140000,-61.1024000")
    ∷ ("TT-SFO", "10.27720000,-61.4589000")
    ∷ ("TT-SGE", "10.68380000,-61.1277000")
    ∷ ("TT-SIP", "10.11800000,-61.6987000")
    ∷ ("TT-SJL", "10.61300000,-61.4498000")
    ∷ ("TT-WTO", "11.19590000,-60.7709000")
    ∷ ("TV-X01~", "-9.39381000,179.9030000")
    ∷ ("TW-CHA", "24.00160000,120.4640000")
    ∷ ("TW-CYI", "23.48220000,120.4410000")
    ∷ ("TW-CYQ", "23.44650000,120.2600000")
    ∷ ("TW-HSQ", "24.67480000,121.1630000")
    ∷ ("TW-HSZ", "24.77570000,120.9590000")
    ∷ ("TW-HUA", "23.77430000,121.3810000")
    ∷ ("TW-ILA", "24.59130000,121.6440000")
    ∷ ("TW-KEE", "25.11310000,121.7040000")
    ∷ ("TW-KHH", "23.01570000,120.6090000")
    ∷ ("TW-KIN", "24.45400000,118.3680000")
    ∷ ("TW-MIA", "24.52530000,120.9420000")
    ∷ ("TW-NAN", "23.79770000,120.9880000")
    ∷ ("TW-PEN", "23.57240000,119.5970000")
    ∷ ("TW-PIF", "22.53440000,120.6610000")
    ∷ ("TW-TAO", "24.96100000,121.2270000")
    ∷ ("TW-TNN", "23.04640000,120.1820000")
    ∷ ("TW-TPE", "25.09040000,121.5590000")
    ∷ ("TW-TTT", "22.04990000,121.5400000")
    ∷ ("TW-TXG", "24.23800000,120.9660000")
    ∷ ("TW-YUN", "23.72530000,120.4270000")
    ∷ []

pub all_places-tn_to_tw : all_places tn_to_tw ≡ true
unfolding all_places
all_places-tn_to_tw = refl
