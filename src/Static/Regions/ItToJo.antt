-- ===== src/Static/Regions/ItToJo.antt =====
-- static/regions.go, IT-AG to JO-MN.
use locate.Prelude.{String, ◌≡◌, refl, true, [], ◌∷◌}
use locate.Prelude.Maps.{Map}
use locate.Clientgeo.Coordinates.{all_places}

abbrev pub it_to_jo : Map String
it_to_jo =
    ("IT-AG", "37.45220000,13.4938000")
    ∷ ("IT-AL", "44.81020000,8.7481800")
    ∷ ("IT-AN", "43.53830000,13.1128000")
    ∷ ("IT-AO", "45.71260000,7.3505900")
    ∷ ("IT-AP", "42.90540000,13.5862000")
    ∷ ("IT-AQ", "42.05750000,13.6034000")
    ∷ ("IT-AR", "43.52980000,11.7758000")
    ∷ ("IT-AT", "44.92360000,8.1703600")
    ∷ ("IT-BA", "40.92800000,16.7706000")
    ∷ ("IT-BG", "45.80970000,9.7709300")
    ∷ ("IT-BI", "45.59320000,8.0893600")
    ∷ ("IT-BL", "46.31690000,12.1449000")
    ∷ ("IT-BN", "41.23250000,14.7663000")
    ∷ ("IT-BO", "44.39490000,11.4149000")
    ∷ ("IT-BR", "40.61950000,17.7110000")
    ∷ ("IT-BS", "45.63100000,10.3574000")
    ∷ ("IT-BT", "41.16380000,16.1413000")
    ∷ ("IT-BZ", "46.70700000,11.4411000")
    ∷ ("IT-CA", "39.45020000,9.2574000")
    ∷ ("IT-CB", "41.64250000,14.7413000")
    ∷ ("IT-CE", "41.21560000,14.1425000")
    ∷ ("IT-CH", "42.10330000,14.3997000")
    ∷ ("IT-CI", "39.24020000,8.5755900")
    ∷ ("IT-CL", "37.22300000,14.1598000")
    ∷ ("IT-CN", "44.48620000,7.6303400")
    ∷ ("IT-CO", "45.93890000,9.1586000")
    ∷ ("IT-CR", "45.22600000,9.9956300")
    ∷ ("IT-CS", "39.55550000,16.3123000")
    ∷ ("IT-CT", "37.58820000,14.9690000")
    ∷ ("IT-CZ", "38.87800000,16.4736000")
    ∷ ("IT-EN", "37.65980000,14.4462000")
    ∷ ("IT-FC", "44.05690000,12.0795000")
    ∷ ("IT-FE", "44.77300000,11.9305000")
    ∷ ("IT-FG", "41.54760000,15.5111000")
    ∷ ("IT-FI", "43.73040000,11.3233000")
    ∷ ("IT-FM", "43.12310000,13.6263000")
    ∷ ("IT-FR", "41.61060000,13.5575000")
    ∷ ("IT-GE", "44.46750000,9.1506400")
    ∷ ("IT-GO", "45.86020000,13.4936000")
    ∷ ("IT-GR", "42.81940000,11.2046000")
    ∷ ("IT-IM", "44.01100000,7.8193500")
    ∷ ("IT-IS", "41.64500000,14.2393000")
    ∷ ("IT-KR", "39.16440000,16.9491000")
    ∷ ("IT-LC", "45.76060000,9.3692100")
    ∷ ("IT-LE", "40.16700000,18.2094000")
    ∷ ("IT-LI", "43.06010000,10.6186000")
    ∷ ("IT-LO", "45.25300000,9.5474100")
    ∷ ("IT-LT", "41.38150000,13.0878000")
    ∷ ("IT-LU", "43.98820000,10.4525000")
    ∷ ("IT-MB", "45.62560000,9.2774000")
    ∷ ("IT-MC", "43.19180000,13.2195000")
    ∷ ("IT-ME", "38.04650000,14.9117000")
    ∷ ("IT-MI", "45.44200000,9.1154000")
    ∷ ("IT-MN", "45.13960000,10.7355000")
    ∷ ("IT-MO", "44.43110000,10.8516000")
    ∷ ("IT-MS", "44.23450000,10.0285000")
    ∷ ("IT-MT", "40.45330000,16.4876000")
    ∷ ("IT-NA", "40.87730000,14.4226000")
    ∷ ("IT-NO", "45.58780000,8.5375700")
    ∷ ("IT-NU", "40.33240000,9.4006300")
    ∷ ("IT-OG", "39.89130000,9.5209300")
    ∷ ("IT-OR", "40.00010000,8.7303400")
    ∷ ("IT-OT", "40.92820000,9.2860500")
    ∷ ("IT-PA", "37.88900000,13.5583000")
    ∷ ("IT-PC", "44.87040000,9.5816700")
    ∷ ("IT-PD", "45.36100000,11.8371000")
    ∷ ("IT-PE", "42.31260000,13.8877000")
    ∷ ("IT-PG", "43.10110000,12.4925000")
    ∷ ("IT-PI", "43.55280000,10.6759000")
    ∷ ("IT-PN", "46.21220000,12.6981000")
    ∷ ("IT-PO", "43.89650000,11.0826000")
    ∷ ("IT-PR", "44.63550000,10.0400000")
    ∷ ("IT-PT", "43.94810000,10.8592000")
    ∷ ("IT-PV", "45.13960000,9.2558000")
    ∷ ("IT-RA", "44.42350000,12.0852000")
    ∷ ("IT-RC", "38.23630000,16.0152000")
    ∷ ("IT-RE", "44.66990000,10.6186000")
    ∷ ("IT-RG", "36.90790000,14.6539000")
    ∷ ("IT-RI", "42.33820000,12.9445000")
    ∷ ("IT-RO", "45.05320000,11.8695000")
    ∷ ("IT-SA", "40.43620000,15.2189000")
    ∷ ("IT-SI", "43.22050000,11.4207000")
    ∷ ("IT-SO", "46.20350000,9.8120200")
    ∷ ("IT-SP", "44.21080000,9.6932200")
    ∷ ("IT-SR", "37.08690000,15.0549000")
    ∷ ("IT-SS", "40.63610000,8.6845100")
    ∷ ("IT-SV", "44.28640000,8.2891600")
    ∷ ("IT-TA", "40.60810000,17.1095000")
    ∷ ("IT-TE", "42.67050000,13.7294000")
    ∷ ("IT-TN", "46.04150000,10.9947000")
    ∷ ("IT-TO", "45.16090000,7.4721100")
    ∷ ("IT-TP", "37.85150000,12.7040000")
    ∷ ("IT-TR", "42.57880000,12.4862000")
    ∷ ("IT-TS", "45.68660000,13.7799000")
    ∷ ("IT-TV", "45.80920000,12.2313000")
    ∷ ("IT-UD", "46.08390000,13.1961000")
    ∷ ("IT-VA", "45.78760000,8.7589800")
    ∷ ("IT-VB", "46.07390000,8.3431700")
    ∷ ("IT-VC", "45.84160000,8.1595600")
    ∷ ("IT-VE", "45.45910000,12.1647000")
    ∷ ("IT-VI", "45.71200000,11.4753000")
    ∷ ("IT-VR", "45.45280000,11.0433000")
    ∷ ("IT-VS", "39.51320000,8.7303400")
    ∷ ("IT-VT", "42.42990000,11.9706000")
    ∷ ("IT-VV", "38.64310000,16.1928000")
    ∷ ("JE-X01~", "49.22980000,-2.1245400")
    ∷ ("JM-01", "17.97990000,-76.7653000")
    ∷ ("JM-02", "18.02290000,-76.7685000")
    ∷ ("JM-03", "17.95100000,-76.4226000")
    ∷ ("JM-04", "18.11790000,-76.5041000")
    ∷ ("JM-05", "18.26550000,-76.8859000")
    ∷ ("JM-06", "18.31940000,-77.2438000")
    ∷ ("JM-07", "18.36000000,-77.6163000")
    ∷ ("JM-08", "18.36370000,-77.8715000")
    ∷ ("JM-09", "18.39530000,-78.1337000")
    ∷ ("JM-10", "18.26780000,-78.1303000")
    ∷ ("JM-11", "18.05370000,-77.7646000")
    ∷ ("JM-12", "18.02190000,-77.4996000")
    ∷ ("JM-13", "17.99470000,-77.3109000")
    ∷ ("JM-14", "17.85180000,-77.0292000")
    ∷ ("JO-AJ", "32.29320000,35.7610000")
    ∷ ("JO-AM", "31.62110000,36.4418000")
    ∷ ("JO-AQ", "29.62760000,35.3449000")
    ∷ ("JO-AT", "30.78790000,35.6436000")
    ∷ ("JO-AZ", "31.80950000,36.8284000")
    ∷ ("JO-BA", "31.83450000,35.7216000")
    ∷ ("JO-IR", "32.55590000,35.8195000")
    ∷ ("JO-JA", "32.21860000,35.8560000")
    ∷ ("JO-KA", "31.17530000,35.7693000")
    ∷ ("JO-MA", "32.24810000,37.6195000")
    ∷ ("JO-MD", "31.58520000,35.6722000")
    ∷ ("JO-MN", "30.49200000,36.6401000")
    ∷ []

pub all_places-it_to_jo : all_places it_to_jo ≡ true
unfolding all_places
all_places-it_to_jo = refl
