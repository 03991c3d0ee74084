-- ===== src/Static/Regions/MxToNi.antt =====
-- static/regions.go, MX-AGU to NI-SJ.
use locate.Prelude.{String, ◌≡◌, refl, true, [], ◌∷◌}
use locate.Prelude.Maps.{Map}
use locate.Clientgeo.Coordinates.{all_places}

abbrev pub mx_to_ni : Map String
mx_to_ni =
    ("MX-AGU", "22.03750000,-102.3510000")
    ∷ ("MX-BCN", "30.33990000,-115.2090000")
    ∷ ("MX-BCS", "25.06560000,-111.4520000")
    ∷ ("MX-CAM", "18.66240000,-90.2807000")
    ∷ ("MX-CHH", "28.97300000,-106.2320000")
    ∷ ("MX-CHP", "16.52700000,-92.5810000")
    ∷ ("MX-COA", "27.44730000,-101.8850000")
    ∷ ("MX-COL", "19.13250000,-103.9150000")
    ∷ ("MX-DIF", "19.32660000,-99.1369000")
    ∷ ("MX-DUR", "24.56600000,-104.8080000")
    ∷ ("MX-GRO", "17.76080000,-100.0910000")
    ∷ ("MX-GUA", "20.81410000,-100.9040000")
    ∷ ("MX-HID", "20.53540000,-98.9221000")
    ∷ ("MX-JAL", "20.30260000,-103.6020000")
    ∷ ("MX-MEX", "19.32750000,-99.7416000")
    ∷ ("MX-MIC", "19.24580000,-101.9360000")
    ∷ ("MX-MOR", "18.74200000,-99.0785000")
    ∷ ("MX-NAY", "21.79340000,-104.8240000")
    ∷ ("MX-NLE", "25.61780000,-99.8307000")
    ∷ ("MX-OAX", "16.94000000,-96.2087000")
    ∷ ("MX-PUE", "18.54900000,-97.8889000")
    ∷ ("MX-QUE", "20.73920000,-99.9663000")
    ∷ ("MX-ROO", "19.38610000,-88.3440000")
    ∷ ("MX-SIN", "25.60410000,-108.0010000")
    ∷ ("MX-SLP", "22.44650000,-100.3240000")
    ∷ ("MX-SON", "29.52930000,-110.4850000")
    ∷ ("MX-TAB", "18.12520000,-92.8274000")
    ∷ ("MX-TAM", "24.08080000,-98.5197000")
    ∷ ("MX-TLA", "19.39560000,-98.1610000")
    ∷ ("MX-VER", "19.09260000,-96.5953000")
    ∷ ("MX-X01~", "22.38580000,-89.6633000")
    ∷ ("MX-YUC", "20.66300000,-88.9836000")
    ∷ ("MX-ZAC", "23.37850000,-102.5790000")
    ∷ ("MY-01", "2.00649000,103.4120000")
    ∷ ("MY-02", "5.80958000,100.6470000")
    ∷ ("MY-03", "5.40349000,102.0050000")
    ∷ ("MY-04", "2.32162000,102.2930000")
    ∷ ("MY-05", "2.70857000,102.1490000")
    ∷ ("MY-06", "3.84557000,102.4910000")
    ∷ ("MY-07", "5.36839000,100.2610000")
    ∷ ("MY-08", "4.74737000,101.0590000")
    ∷ ("MY-09", "6.52169000,100.2530000")
    ∷ ("MY-10", "3.30780000,101.4280000")
    ∷ ("MY-11", "4.94214000,103.0130000")
    ∷ ("MY-12", "5.31115000,117.0950000")
    ∷ ("MY-13", "2.44952000,113.3440000")
    ∷ ("MY-14", "3.13836000,101.6980000")
    ∷ ("MY-15", "5.32524000,115.2220000")
    ∷ ("MY-16", "2.93814000,101.7060000")
    ∷ ("MZ-B", "-20.81100000,33.4678000")
    ∷ ("MZ-G", "-23.12310000,32.8795000")
    ∷ ("MZ-I", "-21.66770000,35.4619000")
    ∷ ("MZ-L", "-25.55710000,32.3209000")
    ∷ ("MZ-N", "-14.94970000,38.7815000")
    ∷ ("MZ-P", "-12.51000000,39.3146000")
    ∷ ("MZ-Q", "-16.42130000,37.1305000")
    ∷ ("MZ-S", "-18.77260000,34.8544000")
    ∷ ("MZ-T", "-15.42590000,32.7751000")
    ∷ ("NA-CA", "-17.84910000,23.1229000")
    ∷ ("NA-ER", "-22.21660000,15.0824000")
    ∷ ("NA-HA", "-24.51080000,17.2167000")
    ∷ ("NA-KA", "-27.02760000,17.4903000")
    ∷ ("NA-KH", "-22.70560000,17.1204000")
    ∷ ("NA-KU", "-19.87570000,13.9847000")
    ∷ ("NA-OD", "-20.00320000,18.2876000")
    ∷ ("NA-OH", "-22.05260000,19.4738000")
    ∷ ("NA-OK", "-18.52240000,19.4968000")
    ∷ ("NA-ON", "-18.49610000,15.6620000")
    ∷ ("NA-OS", "-18.30990000,14.8918000")
    ∷ ("NA-OT", "-18.53810000,17.0179000")
    ∷ ("NA-OW", "-17.57890000,16.7798000")
    ∷ ("NC-X01~", "-21.53260000,167.9760000")
    ∷ ("NC-X02~", "-22.60800000,167.4870000")
    ∷ ("NC-X03~", "-21.00820000,165.0580000")
    ∷ ("NE-1", "19.45230000,10.0991000")
    ∷ ("NE-2", "15.76520000,13.0899000")
    ∷ ("NE-3", "12.81240000,3.5502300")
    ∷ ("NE-4", "14.11480000,7.4119800")
    ∷ ("NE-5", "15.60020000,5.2736100")
    ∷ ("NE-7", "14.53140000,9.6623100")
    ∷ ("NE-8", "13.56200000,2.1216700")
    ∷ ("NF-X01~", "-29.03300000,167.9540000")
    ∷ ("NG-AB", "5.57402000,7.5601900")
    ∷ ("NG-AD", "9.47906000,12.5768000")
    ∷ ("NG-AK", "4.89926000,7.9096300")
    ∷ ("NG-AN", "6.30827000,6.9847200")
    ∷ ("NG-BA", "10.41010000,9.8858400")
    ∷ ("NG-BE", "7.48719000,8.7073600")
    ∷ ("NG-BO", "12.00190000,13.1533000")
    ∷ ("NG-BY", "4.73907000,5.9742100")
    ∷ ("NG-CR", "5.93762000,8.6787300")
    ∷ ("NG-DE", "5.44265000,5.8819500")
    ∷ ("NG-EB", "6.32648000,7.9825400")
    ∷ ("NG-ED", "6.52416000,5.8493400")
    ∷ ("NG-EK", "7.67104000,5.3592900")
    ∷ ("NG-EN", "6.55396000,7.3840800")
    ∷ ("NG-FC", "8.78852000,7.1888900")
    ∷ ("NG-GO", "10.43420000,11.2421000")
    ∷ ("NG-IM", "5.55004000,7.0155700")
    ∷ ("NG-JI", "12.07140000,9.3622500")
    ∷ ("NG-KD", "10.32940000,7.4390600")
    ∷ ("NG-KE", "11.77120000,4.0654800")
    ∷ ("NG-KN", "11.73230000,8.5414600")
    ∷ ("NG-KO", "7.78485000,6.6142000")
    ∷ ("NG-KT", "12.50560000,7.5860900")
    ∷ ("NG-KW", "8.80445000,4.4690600")
    ∷ ("NG-LA", "6.43313000,3.5247800")
    ∷ ("NG-NA", "8.50412000,8.2769400")
    ∷ ("NG-NI", "9.95553000,5.4549400")
    ∷ ("NG-OG", "7.01845000,3.2925500")
    ∷ ("NG-ON", "7.14440000,5.1916500")
    ∷ ("NG-OS", "7.47613000,4.5491100")
    ∷ ("NG-OY", "8.18969000,3.6168100")
    ∷ ("NG-PL", "8.95327000,9.6060100")
    ∷ ("NG-RI", "4.99790000,6.8196900")
    ∷ ("NG-SO", "13.06030000,5.4366000")
    ∷ ("NG-TA", "7.93608000,10.5428000")
    ∷ ("NG-YO", "12.31560000,11.5881000")
    ∷ ("NG-ZA", "12.00840000,6.1283400")
    ∷ ("NI-AN", "13.99700000,-84.1501000")
    ∷ ("NI-AS", "12.22650000,-84.2147000")
    ∷ ("NI-BO", "12.52400000,-85.4734000")
    ∷ ("NI-CA", "11.76920000,-86.2874000")
    ∷ ("NI-CI", "12.74750000,-87.1702000")
    ∷ ("NI-CO", "12.02920000,-85.1156000")
    ∷ ("NI-ES", "13.22500000,-86.4072000")
    ∷ ("NI-GR", "11.87360000,-85.9698000")
    ∷ ("NI-JI", "13.69750000,-85.5417000")
    ∷ ("NI-LE", "12.41680000,-86.7187000")
    ∷ ("NI-MD", "13.49630000,-86.4120000")
    ∷ ("NI-MN", "12.30350000,-86.2493000")
    ∷ ("NI-MS", "11.99590000,-86.1227000")
    ∷ ("NI-MT", "13.02420000,-85.4926000")
    ∷ ("NI-NS", "13.71830000,-86.2589000")
    ∷ ("NI-RI", "11.35240000,-85.7633000")
    ∷ ("NI-SJ", "11.16910000,-84.5184000")
    ∷ []

pub all_places-mx_to_ni : all_places mx_to_ni ≡ true
unfolding all_places
all_places-mx_to_ni = refl
