-- ===== src/Static/Regions/VnToZa.antt =====
-- static/regions.go, VN-01 to ZA-WC.
use locate.Prelude.{String, ◌≡◌, refl, true, [], ◌∷◌}
use locate.Prelude.Maps.{Map}
use locate.Clientgeo.Coordinates.{all_places}

abbrev pub vn_to_za : Map String
vn_to_za =
    ("VN-01", "22.35020000,103.2550000")
    ∷ ("VN-02", "22.35590000,104.0960000")
    ∷ ("VN-03", "22.76550000,104.9650000")
    ∷ ("VN-04", "22.75950000,106.0470000")
    ∷ ("VN-05", "21.30110000,104.1590000")
    ∷ ("VN-06", "21.74840000,104.5120000")
    ∷ ("VN-07", "22.13100000,105.2290000")
    ∷ ("VN-09", "21.78260000,106.7240000")
    ∷ ("VN-13", "21.22300000,107.1810000")
    ∷ ("VN-14", "20.72920000,105.3400000")
    ∷ ("VN-18", "20.27220000,105.8520000")
    ∷ ("VN-20", "20.53030000,106.3710000")
    ∷ ("VN-21", "20.09170000,105.2150000")
    ∷ ("VN-22", "19.35480000,104.8270000")
    ∷ ("VN-23", "18.35630000,105.7990000")
    ∷ ("VN-24", "17.46910000,106.3570000")
    ∷ ("VN-25", "16.72040000,106.9730000")
    ∷ ("VN-26", "16.31200000,107.6340000")
    ∷ ("VN-27", "15.65350000,107.9550000")
    ∷ ("VN-28", "14.74510000,107.9690000")
    ∷ ("VN-29", "14.99710000,108.6860000")
    ∷ ("VN-30", "13.84930000,108.1560000")
    ∷ ("VN-31", "14.10750000,108.9710000")
    ∷ ("VN-32", "13.16470000,109.0640000")
    ∷ ("VN-33", "12.76910000,108.1330000")
    ∷ ("VN-34", "12.60490000,109.3590000")
    ∷ ("VN-35", "11.53620000,108.0000000")
    ∷ ("VN-36", "11.62420000,108.9250000")
    ∷ ("VN-37", "11.41210000,106.1400000")
    ∷ ("VN-39", "11.12580000,107.1780000")
    ∷ ("VN-40", "11.12840000,108.2320000")
    ∷ ("VN-41", "10.68690000,106.1340000")
    ∷ ("VN-43", "10.39690000,107.1430000")
    ∷ ("VN-44", "10.57360000,105.1540000")
    ∷ ("VN-45", "10.66440000,105.5860000")
    ∷ ("VN-46", "10.45810000,106.2170000")
    ∷ ("VN-47", "9.85962000,105.2840000")
    ∷ ("VN-49", "10.10420000,105.9690000")
    ∷ ("VN-50", "10.17100000,106.4960000")
    ∷ ("VN-51", "9.82817000,106.2890000")
    ∷ ("VN-52", "9.56140000,105.9000000")
    ∷ ("VN-53", "22.14760000,105.8740000")
    ∷ ("VN-54", "21.35120000,106.4930000")
    ∷ ("VN-55", "9.33941000,105.5730000")
    ∷ ("VN-56", "21.09800000,106.1170000")
    ∷ ("VN-57", "11.13820000,106.6590000")
    ∷ ("VN-58", "11.68050000,106.8970000")
    ∷ ("VN-59", "9.05545000,105.0730000")
    ∷ ("VN-61", "20.96130000,106.3640000")
    ∷ ("VN-63", "20.55690000,105.9850000")
    ∷ ("VN-66", "20.80850000,106.0760000")
    ∷ ("VN-67", "20.23430000,106.2540000")
    ∷ ("VN-68", "21.31270000,105.1430000")
    ∷ ("VN-69", "21.58120000,105.8870000")
    ∷ ("VN-70", "21.34550000,105.5490000")
    ∷ ("VN-71", "21.74870000,103.2260000")
    ∷ ("VN-72", "12.14250000,107.6600000")
    ∷ ("VN-73", "9.84353000,105.6630000")
    ∷ ("VN-CT", "10.24210000,105.6850000")
    ∷ ("VN-DN", "16.09120000,108.1020000")
    ∷ ("VN-HN", "21.13060000,105.8720000")
    ∷ ("VN-HP", "20.79000000,106.6350000")
    ∷ ("VN-SG", "10.40900000,106.9260000")
    ∷ ("VU-MAP", "-16.37650000,167.4940000")
    ∷ ("VU-PAM", "-15.75750000,168.1950000")
    ∷ ("VU-SAM", "-15.67810000,167.1550000")
    ∷ ("VU-SEE", "-16.73850000,168.3010000")
    ∷ ("VU-TAE", "-20.18920000,169.8180000")
    ∷ ("VU-TOB", "-14.23280000,167.5000000")
    ∷ ("WF-AL", "-14.30290000,-178.0940000")
    ∷ ("WF-SG", "-14.26590000,-178.1610000")
    ∷ ("WF-UV", "-13.27680000,-176.1690000")
    ∷ ("WS-AA", "-13.90050000,-171.9190000")
    ∷ ("WS-AL", "-13.89040000,-172.0390000")
    ∷ ("WS-AT", "-14.02120000,-171.5920000")
    ∷ ("WS-FA", "-13.65160000,-172.2430000")
    ∷ ("WS-GE", "-13.96580000,-171.8610000")
    ∷ ("WS-GI", "-13.54610000,-172.4670000")
    ∷ ("WS-PA", "-13.71950000,-172.4540000")
    ∷ ("WS-SA", "-13.63650000,-172.6350000")
    ∷ ("WS-TU", "-13.94150000,-171.7520000")
    ∷ ("WS-VF", "-13.96330000,-171.5490000")
    ∷ ("WS-VS", "-13.55610000,-172.7010000")
    ∷ ("XK-X01~", "42.37240000,20.4124000")
    ∷ ("XK-X02~", "42.52700000,20.2468000")
    ∷ ("XK-X03~", "41.99260000,20.6774000")
    ∷ ("XK-X04~", "42.60210000,20.8784000")
    ∷ ("XK-X05~", "42.45030000,21.4490000")
    ∷ ("XK-X06~", "42.76550000,20.4919000")
    ∷ ("XK-X07~", "42.19800000,21.2405000")
    ∷ ("XK-X08~", "42.59990000,20.5913000")
    ∷ ("XK-X09~", "42.60410000,21.0358000")
    ∷ ("XK-X10~", "42.59540000,21.5916000")
    ∷ ("XK-X11~", "42.93770000,20.9247000")
    ∷ ("XK-X12~", "43.10330000,20.7944000")
    ∷ ("XK-X13~", "42.50490000,21.1080000")
    ∷ ("XK-X14~", "42.48060000,20.7392000")
    ∷ ("XK-X15~", "42.58000000,21.3818000")
    ∷ ("XK-X16~", "42.67940000,21.0550000")
    ∷ ("XK-X17~", "42.39010000,20.6090000")
    ∷ ("XK-X18~", "42.65690000,20.3112000")
    ∷ ("XK-X19~", "42.86700000,21.1831000")
    ∷ ("XK-X20~", "42.68820000,21.2515000")
    ∷ ("XK-X21~", "42.18840000,20.7289000")
    ∷ ("XK-X22~", "42.71690000,20.7437000")
    ∷ ("XK-X23~", "42.41440000,21.0042000")
    ∷ ("XK-X24~", "42.22010000,21.0064000")
    ∷ ("XK-X25~", "42.33710000,20.8519000")
    ∷ ("XK-X26~", "42.34810000,21.1389000")
    ∷ ("XK-X27~", "42.29960000,21.3686000")
    ∷ ("XK-X28~", "42.79200000,20.9843000")
    ∷ ("XK-X29~", "42.92450000,20.6620000")
    ∷ ("XK-X30~", "42.94940000,20.7736000")
    ∷ ("YE-AB", "13.82690000,46.2119000")
    ∷ ("YE-AD", "12.80870000,44.7544000")
    ∷ ("YE-AM", "16.09380000,44.0107000")
    ∷ ("YE-BA", "14.29030000,45.3371000")
    ∷ ("YE-DA", "13.89650000,44.7937000")
    ∷ ("YE-DH", "14.68050000,44.2001000")
    ∷ ("YE-HD", "16.37790000,48.9133000")
    ∷ ("YE-HJ", "16.18130000,43.1804000")
    ∷ ("YE-HU", "14.92800000,43.2214000")
    ∷ ("YE-IB", "14.05430000,44.2012000")
    ∷ ("YE-JA", "16.56290000,45.6137000")
    ∷ ("YE-LA", "13.18320000,44.6561000")
    ∷ ("YE-MA", "15.53680000,45.7376000")
    ∷ ("YE-MR", "16.87850000,51.6413000")
    ∷ ("YE-MW", "15.38000000,43.6490000")
    ∷ ("YE-RA", "14.66550000,43.7580000")
    ∷ ("YE-SA", "15.34940000,44.2115000")
    ∷ ("YE-SD", "16.98760000,44.0404000")
    ∷ ("YE-SH", "14.89650000,47.0989000")
    ∷ ("YE-TA", "13.42820000,43.7305000")
    ∷ ("ZA-EC", "-32.06220000,26.6417000")
    ∷ ("ZA-FS", "-28.58150000,26.4914000")
    ∷ ("ZA-GT", "-26.16820000,28.2074000")
    ∷ ("ZA-LP", "-23.58590000,29.1301000")
    ∷ ("ZA-MP", "-25.98930000,30.1421000")
    ∷ ("ZA-NC", "-29.74370000,20.9961000")
    ∷ ("ZA-NW", "-26.39990000,25.7403000")
    ∷ ("ZA-WC", "-33.50350000,20.9745000")
    ∷ []

pub all_places-vn_to_za : all_places vn_to_za ≡ true
unfolding all_places
all_places-vn_to_za = refl
