-- ===== src/Static/Countries/AdToJp.antt =====
-- static/countries.go, AD to JP.
use locate.Prelude.{String, ◌≡◌, refl, true, [], ◌∷◌}
use locate.Prelude.Maps.{Map}
use locate.Clientgeo.Coordinates.{all_places}

abbrev pub ad_to_jp : Map String
ad_to_jp =
    ("AD", "42.546245,1.601554")
    ∷ ("AE", "23.424076,53.847818")
    ∷ ("AF", "33.93911,67.709953")
    ∷ ("AG", "17.060816,-61.796428")
    ∷ ("AI", "18.220554,-63.068615")
    ∷ ("AL", "41.153332,20.168331")
    ∷ ("AM", "40.069099,45.038189")
    ∷ ("AN", "12.226079,-69.060087")
    ∷ ("AO", "-11.202692,17.873887")
    ∷ ("AQ", "-75.250973,-0.071389")
    ∷ ("AR", "-38.416097,-63.616672")
    ∷ ("AS", "-14.270972,-170.132217")
    ∷ ("AT", "47.516231,14.550072")
    ∷ ("AU", "-25.274398,133.775136")
    ∷ ("AW", "12.52111,-69.968338")
    ∷ ("AZ", "40.143105,47.576927")
    ∷ ("BA", "43.915886,17.679076")
    ∷ ("BB", "13.193887,-59.543198")
    ∷ ("BD", "23.684994,90.356331")
    ∷ ("BE", "50.503887,4.469936")
    ∷ ("BF", "12.238333,-1.561593")
    ∷ ("BG", "42.733883,25.48583")
    ∷ ("BH", "25.930414,50.637772")
    ∷ ("BI", "-3.373056,29.918886")
    ∷ ("BJ", "9.30769,2.315834")
    ∷ ("BM", "32.321384,-64.75737")
    ∷ ("BN", "4.535277,114.727669")
    ∷ ("BO", "-16.290154,-63.588653")
    ∷ ("BR", "-14.235004,-51.92528")
    ∷ ("BS", "25.03428,-77.39628")
    ∷ ("BT", "27.514162,90.433601")
    ∷ ("BV", "-54.423199,3.413194")
    ∷ ("BW", "-22.328474,24.684866")
    ∷ ("BY", "53.709807,27.953389")
    ∷ ("BZ", "17.189877,-88.49765")
    ∷ ("CA", "56.130366,-106.346771")
    ∷ ("CC", "-12.164165,96.870956")
    ∷ ("CD", "-4.038333,21.758664")
    ∷ ("CF", "6.611111,20.939444")
    ∷ ("CG", "-0.228021,15.827659")
    ∷ ("CH", "46.818188,8.227512")
    ∷ ("CI", "7.539989,-5.54708")
    ∷ ("CK", "-21.236736,-159.777671")
    ∷ ("CL", "-35.675147,-71.542969")
    ∷ ("CM", "7.369722,12.354722")
    ∷ ("CN", "35.86166,104.195397")
    ∷ ("CO", "4.570868,-74.297333")
    ∷ ("CR", "9.748917,-83.753428")
    ∷ ("CU", "21.521757,-77.781167")
    ∷ ("CV", "16.002082,-24.013197")
    ∷ ("CX", "-10.447525,105.690449")
    ∷ ("CY", "35.126413,33.429859")
    ∷ ("CZ", "49.817492,15.472962")
    ∷ ("DE", "51.165691,10.451526")
    ∷ ("DJ", "11.825138,42.590275")
    ∷ ("DK", "56.26392,9.501785")
    ∷ ("DM", "15.414999,-61.370976")
    ∷ ("DO", "18.735693,-70.162651")
    ∷ ("DZ", "28.033886,1.659626")
    ∷ ("EC", "-1.831239,-78.183406")
    ∷ ("EE", "58.595272,25.013607")
    ∷ ("EG", "26.820553,30.802498")
    ∷ ("EH", "24.215527,-12.885834")
    ∷ ("ER", "15.179384,39.782334")
    ∷ ("ES", "40.463667,-3.74922")
    ∷ ("ET", "9.145,40.489673")
    ∷ ("FI", "61.92411,25.748151")
    ∷ ("FJ", "-16.578193,179.414413")
    ∷ ("FK", "-51.796253,-59.523613")
    ∷ ("FM", "7.425554,150.550812")
    ∷ ("FO", "61.892635,-6.911806")
    ∷ ("FR", "46.227638,2.213749")
    ∷ ("GA", "-0.803689,11.609444")
    ∷ ("GB", "55.378051,-3.435973")
    ∷ ("GD", "12.262776,-61.604171")
    ∷ ("GE", "42.315407,43.356892")
    ∷ ("GF", "3.933889,-53.125782")
    ∷ ("GG", "49.465691,-2.585278")
    ∷ ("GH", "7.946527,-1.023194")
    ∷ ("GI", "36.137741,-5.345374")
    ∷ ("GL", "71.706936,-42.604303")
    ∷ ("GM", "13.443182,-15.310139")
    ∷ ("GN", "9.945587,-9.696645")
    ∷ ("GP", "16.995971,-62.067641")
    ∷ ("GQ", "1.650801,10.267895")
    ∷ ("GR", "39.074208,21.824312")
    ∷ ("GS", "-54.429579,-36.587909")
    ∷ ("GT", "15.783471,-90.230759")
    ∷ ("GU", "13.444304,144.793731")
    ∷ ("GW", "11.803749,-15.180413")
    ∷ ("GY", "4.860416,-58.93018")
    ∷ ("GZ", "31.354676,34.308825")
    ∷ ("HK", "22.396428,114.109497")
    ∷ ("HM", "-53.08181,73.504158")
    ∷ ("HN", "15.199999,-86.241905")
    ∷ ("HR", "45.1,15.2")
    ∷ ("HT", "18.971187,-72.285215")
    ∷ ("HU", "47.162494,19.503304")
    ∷ ("ID", "-0.789275,113.921327")
    ∷ ("IE", "53.41291,-8.24389")
    ∷ ("IL", "31.046051,34.851612")
    ∷ ("IM", "54.236107,-4.548056")
    ∷ ("IN", "20.593684,78.96288")
    ∷ ("IO", "-6.343194,71.876519")
    ∷ ("IQ", "33.223191,43.679291")
    ∷ ("IR", "32.427908,53.688046")
    ∷ ("IS", "64.963051,-19.020835")
    ∷ ("IT", "41.87194,12.56738")
    ∷ ("JE", "49.214439,-2.13125")
    ∷ ("JM", "18.109581,-77.297508")
    ∷ ("JO", "30.585164,36.238414")
    ∷ ("JP", "36.204824,138.252924")
    ∷ []

pub all_places-ad_to_jp : all_places ad_to_jp ≡ true
unfolding all_places
all_places-ad_to_jp = refl
