-- ===== src/Static/Regions/PgToPs.antt =====
-- static/regions.go, PG-CPK to PS-WBK.
use locate.Prelude.{String, ◌≡◌, refl, true, [], ◌∷◌}
use locate.Prelude.Maps.{Map}
use locate.Clientgeo.Coordinates.{all_places}

abbrev pub pg_to_ps : Map String
pg_to_ps =
    ("PG-CPK", "-6.27374000,144.8940000")
    ∷ ("PG-CPM", "-9.84123000,148.0340000")
    ∷ ("PG-EBR", "-5.65441000,151.5070000")
    ∷ ("PG-EHG", "-6.48410000,145.5570000")
    ∷ ("PG-EPW", "-5.48883000,143.5050000")
    ∷ ("PG-ESW", "-4.25081000,143.3910000")
    ∷ ("PG-GPK", "-7.21915000,144.8120000")
    ∷ ("PG-MBA", "-11.58100000,153.4870000")
    ∷ ("PG-MPL", "-6.39920000,146.8300000")
    ∷ ("PG-MPM", "-5.08973000,145.0860000")
    ∷ ("PG-MRL", "-2.30166000,147.8060000")
    ∷ ("PG-NCD", "-9.44760000,147.1740000")
    ∷ ("PG-NIK", "-2.51821000,150.2500000")
    ∷ ("PG-NPP", "-9.11432000,148.2270000")
    ∷ ("PG-NSB", "-5.23625000,154.6320000")
    ∷ ("PG-SAN", "-3.45778000,141.7410000")
    ∷ ("PG-SHM", "-6.38625000,143.4460000")
    ∷ ("PG-WBK", "-5.91003000,149.8130000")
    ∷ ("PG-WHM", "-5.77031000,144.4040000")
    ∷ ("PG-WPD", "-7.48919000,142.0100000")
    ∷ ("PH-ABR", "17.56650000,120.7980000")
    ∷ ("PH-AGN", "8.94346000,125.5420000")
    ∷ ("PH-AGS", "8.57934000,125.7610000")
    ∷ ("PH-AKL", "11.56110000,122.2230000")
    ∷ ("PH-ALB", "13.22540000,123.5630000")
    ∷ ("PH-ANT", "11.84760000,121.4690000")
    ∷ ("PH-APA", "18.11790000,121.1670000")
    ∷ ("PH-AUR", "16.12710000,121.7560000")
    ∷ ("PH-BAN", "14.65610000,120.4200000")
    ∷ ("PH-BAS", "6.49955000,122.0590000")
    ∷ ("PH-BCD", "10.65920000,122.9860000")
    ∷ ("PH-BEN", "16.40590000,120.6050000")
    ∷ ("PH-BIL", "11.59110000,124.4870000")
    ∷ ("PH-BOH", "9.84875000,124.2480000")
    ∷ ("PH-BTG", "13.92680000,121.0760000")
    ∷ ("PH-BTN", "21.11640000,121.9510000")
    ∷ ("PH-BUK", "7.99493000,125.0020000")
    ∷ ("PH-BUL", "14.96030000,121.0030000")
    ∷ ("PH-CAG", "17.92420000,121.6410000")
    ∷ ("PH-CAM", "9.17353000,124.7220000")
    ∷ ("PH-CAN", "14.19420000,122.6990000")
    ∷ ("PH-CAP", "11.36730000,122.6330000")
    ∷ ("PH-CAS", "13.61530000,123.1970000")
    ∷ ("PH-CAT", "13.83050000,124.2220000")
    ∷ ("PH-CAV", "14.25630000,120.8360000")
    ∷ ("PH-CEB", "10.26900000,123.6950000")
    ∷ ("PH-COM", "7.52967000,125.9840000")
    ∷ ("PH-DAO", "7.06305000,126.2860000")
    ∷ ("PH-DAS", "6.34808000,125.5110000")
    ∷ ("PH-DAV", "7.07729000,125.5870000")
    ∷ ("PH-EAS", "10.72910000,125.7550000")
    ∷ ("PH-GUI", "10.55770000,122.6100000")
    ∷ ("PH-IFU", "16.82910000,121.2140000")
    ∷ ("PH-ILI", "10.74470000,122.5410000")
    ∷ ("PH-ILN", "18.19950000,120.7100000")
    ∷ ("PH-ILS", "16.98490000,120.6040000")
    ∷ ("PH-ISA", "16.74280000,121.5110000")
    ∷ ("PH-KAL", "17.48840000,121.3220000")
    ∷ ("PH-LAG", "14.14600000,121.3070000")
    ∷ ("PH-LAN", "8.05660000,124.1220000")
    ∷ ("PH-LAP", "10.29920000,123.9590000")
    ∷ ("PH-LAS", "7.90221000,124.3350000")
    ∷ ("PH-LEY", "10.99260000,124.8830000")
    ∷ ("PH-LUN", "16.55690000,120.4360000")
    ∷ ("PH-MAD", "13.37170000,121.9710000")
    ∷ ("PH-MAG", "6.98075000,124.4370000")
    ∷ ("PH-MAS", "12.22760000,123.6110000")
    ∷ ("PH-MDC", "12.65880000,121.0850000")
    ∷ ("PH-MDE", "10.33580000,123.9330000")
    ∷ ("PH-MDR", "12.85260000,121.3600000")
    ∷ ("PH-MNL", "14.42530000,121.0530000")
    ∷ ("PH-MOU", "17.09080000,121.1720000")
    ∷ ("PH-MSC", "8.33846000,123.7170000")
    ∷ ("PH-MSR", "8.45874000,124.6930000")
    ∷ ("PH-NCO", "7.22504000,124.2460000")
    ∷ ("PH-NEC", "10.41370000,122.9850000")
    ∷ ("PH-NER", "9.75662000,123.0320000")
    ∷ ("PH-NSA", "12.37860000,124.8120000")
    ∷ ("PH-NUE", "15.68630000,120.9980000")
    ∷ ("PH-NUV", "16.37290000,121.1010000")
    ∷ ("PH-PAM", "15.14530000,120.5910000")
    ∷ ("PH-PAN", "15.86960000,120.3410000")
    ∷ ("PH-PLW", "9.02764000,117.9120000")
    ∷ ("PH-QUE", "13.87080000,122.0370000")
    ∷ ("PH-QUI", "16.29820000,121.6630000")
    ∷ ("PH-RIZ", "14.68090000,121.2840000")
    ∷ ("PH-ROM", "12.40450000,122.5550000")
    ∷ ("PH-SAR", "5.95631000,125.3030000")
    ∷ ("PH-SCO", "6.13644000,125.1390000")
    ∷ ("PH-SIG", "9.17807000,123.5970000")
    ∷ ("PH-SLE", "10.06940000,125.2150000")
    ∷ ("PH-SLU", "5.53722000,120.8650000")
    ∷ ("PH-SOR", "12.73770000,124.0010000")
    ∷ ("PH-SUK", "6.52568000,124.3820000")
    ∷ ("PH-SUN", "9.66326000,125.9590000")
    ∷ ("PH-SUR", "8.80931000,126.0970000")
    ∷ ("PH-TAR", "15.47330000,120.4630000")
    ∷ ("PH-TAW", "4.80751000,119.8350000")
    ∷ ("PH-WSA", "11.82920000,124.9990000")
    ∷ ("PH-ZAN", "7.03966000,122.0550000")
    ∷ ("PH-ZAS", "7.84487000,123.3090000")
    ∷ ("PH-ZMB", "14.86180000,120.2820000")
    ∷ ("PH-ZSI", "7.71360000,122.9260000")
    ∷ ("PK-BA", "27.51940000,65.5512000")
    ∷ ("PK-GB", "35.78640000,74.9848000")
    ∷ ("PK-IS", "33.70110000,73.0628000")
    ∷ ("PK-JK", "33.86800000,73.8036000")
    ∷ ("PK-KP", "34.94070000,72.6402000")
    ∷ ("PK-PB", "31.35890000,72.3449000")
    ∷ ("PK-SD", "26.37340000,68.8685000")
    ∷ ("PK-TA", "32.61480000,69.8985000")
    ∷ ("PL-DS", "51.01270000,16.4623000")
    ∷ ("PL-KP", "53.03340000,18.5227000")
    ∷ ("PL-LB", "52.23720000,15.4552000")
    ∷ ("PL-LD", "51.63550000,19.3642000")
    ∷ ("PL-LU", "51.20880000,22.8943000")
    ∷ ("PL-MA", "49.87610000,20.3133000")
    ∷ ("PL-MZ", "52.22690000,21.1915000")
    ∷ ("PL-OP", "50.54980000,17.7998000")
    ∷ ("PL-PD", "53.33960000,22.7225000")
    ∷ ("PL-PK", "49.85550000,22.4341000")
    ∷ ("PL-PM", "54.26000000,18.2720000")
    ∷ ("PL-SK", "50.70100000,20.7951000")
    ∷ ("PL-SL", "50.19780000,18.9924000")
    ∷ ("PL-WN", "53.85260000,20.9711000")
    ∷ ("PL-WP", "52.14540000,17.4521000")
    ∷ ("PL-ZP", "53.58780000,15.5906000")
    ∷ ("PM-X01~", "46.77950000,-56.1918000")
    ∷ ("PM-X02~", "47.04610000,-56.3418000")
    ∷ ("PN-X01~", "-25.07070000,-130.1020000")
    ∷ ("PS-GZZ", "31.42630000,34.3654000")
    ∷ ("PS-WBK", "32.00300000,35.2918000")
    ∷ []

pub all_places-pg_to_ps : all_places pg_to_ps ≡ true
unfolding all_places
all_places-pg_to_ps = refl
