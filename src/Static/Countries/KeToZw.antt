-- ===== src/Static/Countries/KeToZw.antt =====
-- static/countries.go, KE to ZW.
use locate.Prelude.{String, ◌≡◌, refl, true, [], ◌∷◌}
use locate.Prelude.Maps.{Map}
use locate.Clientgeo.Coordinates.{all_places}

abbrev pub ke_to_zw : Map String
ke_to_zw =
    ("KE", "-0.023559,37.906193")
    ∷ ("KG", "41.20438,74.766098")
    ∷ ("KH", "12.565679,104.990963")
    ∷ ("KI", "-3.370417,-168.734039")
    ∷ ("KM", "-11.875001,43.872219")
    ∷ ("KN", "17.357822,-62.782998")
    ∷ ("KP", "40.339852,127.510093")
    ∷ ("KR", "35.907757,127.766922")
    ∷ ("KW", "29.31166,47.481766")
    ∷ ("KY", "19.513469,-80.566956")
    ∷ ("KZ", "48.019573,66.923684")
    ∷ ("LA", "19.85627,102.495496")
    ∷ ("LB", "33.854721,35.862285")
    ∷ ("LC", "13.909444,-60.978893")
    ∷ ("LI", "47.166,9.555373")
    ∷ ("LK", "7.873054,80.771797")
    ∷ ("LR", "6.428055,-9.429499")
    ∷ ("LS", "-29.609988,28.233608")
    ∷ ("LT", "55.169438,23.881275")
    ∷ ("LU", "49.815273,6.129583")
    ∷ ("LV", "56.879635,24.603189")
    ∷ ("LY", "26.3351,17.228331")
    ∷ ("MA", "31.791702,-7.09262")
    ∷ ("MC", "43.750298,7.412841")
    ∷ ("MD", "47.411631,28.369885")
    ∷ ("ME", "42.708678,19.37439")
    ∷ ("MG", "-18.766947,46.869107")
    ∷ ("MH", "7.131474,171.184478")
    ∷ ("MK", "41.608635,21.745275")
    ∷ ("ML", "17.570692,-3.996166")
    ∷ ("MM", "21.913965,95.956223")
    ∷ ("MN", "46.862496,103.846656")
    ∷ ("MO", "22.198745,113.543873")
    ∷ ("MP", "17.33083,145.38469")
    ∷ ("MQ", "14.641528,-61.024174")
    ∷ ("MR", "21.00789,-10.940835")
    ∷ ("MS", "16.742498,-62.187366")
    ∷ ("MT", "35.937496,14.375416")
    ∷ ("MU", "-20.348404,57.552152")
    ∷ ("MV", "3.202778,73.22068")
    ∷ ("MW", "-13.254308,34.301525")
    ∷ ("MX", "23.634501,-102.552784")
    ∷ ("MY", "4.210484,101.975766")
    ∷ ("MZ", "-18.665695,35.529562")
    ∷ ("NA", "-22.95764,18.49041")
    ∷ ("NC", "-20.904305,165.618042")
    ∷ ("NE", "17.607789,8.081666")
    ∷ ("NF", "-29.040835,167.954712")
    ∷ ("NG", "9.081999,8.675277")
    ∷ ("NI", "12.865416,-85.207229")
    ∷ ("NL", "52.132633,5.291266")
    ∷ ("NO", "60.472024,8.468946")
    ∷ ("NP", "28.394857,84.124008")
    ∷ ("NR", "-0.522778,166.931503")
    ∷ ("NU", "-19.054445,-169.867233")
    ∷ ("NZ", "-40.900557,174.885971")
    ∷ ("OM", "21.512583,55.923255")
    ∷ ("PA", "8.537981,-80.782127")
    ∷ ("PE", "-9.189967,-75.015152")
    ∷ ("PF", "-17.679742,-149.406843")
    ∷ ("PG", "-6.314993,143.95555")
    ∷ ("PH", "12.879721,121.774017")
    ∷ ("PK", "30.375321,69.345116")
    ∷ ("PL", "51.919438,19.145136")
    ∷ ("PM", "46.941936,-56.27111")
    ∷ ("PN", "-24.703615,-127.439308")
    ∷ ("PR", "18.220833,-66.590149")
    ∷ ("PS", "31.952162,35.233154")
    ∷ ("PT", "39.399872,-8.224454")
    ∷ ("PW", "7.51498,134.58252")
    ∷ ("PY", "-23.442503,-58.443832")
    ∷ ("QA", "25.354826,51.183884")
    ∷ ("RE", "-21.115141,55.536384")
    ∷ ("RO", "45.943161,24.96676")
    ∷ ("RS", "44.016521,21.005859")
    ∷ ("RU", "61.52401,105.318756")
    ∷ ("RW", "-1.940278,29.873888")
    ∷ ("SA", "23.885942,45.079162")
    ∷ ("SB", "-9.64571,160.156194")
    ∷ ("SC", "-4.679574,55.491977")
    ∷ ("SD", "12.862807,30.217636")
    ∷ ("SE", "60.128161,18.643501")
    ∷ ("SG", "1.352083,103.819836")
    ∷ ("SH", "-24.143474,-10.030696")
    ∷ ("SI", "46.151241,14.995463")
    ∷ ("SJ", "77.553604,23.670272")
    ∷ ("SK", "48.669026,19.699024")
    ∷ ("SL", "8.460555,-11.779889")
    ∷ ("SM", "43.94236,12.457777")
    ∷ ("SN", "14.497401,-14.452362")
    ∷ ("SO", "5.152149,46.199616")
    ∷ ("SR", "3.919305,-56.027783")
    ∷ ("ST", "0.18636,6.613081")
    ∷ ("SV", "13.794185,-88.89653")
    ∷ ("SY", "34.802075,38.996815")
    ∷ ("SZ", "-26.522503,31.465866")
    ∷ ("TC", "21.694025,-71.797928")
    ∷ ("TD", "15.454166,18.732207")
    ∷ ("TF", "-49.280366,69.348557")
    ∷ ("TG", "8.619543,0.824782")
    ∷ ("TH", "15.870032,100.992541")
    ∷ ("TJ", "38.861034,71.276093")
    ∷ ("TK", "-8.967363,-171.855881")
    ∷ ("TL", "-8.874217,125.727539")
    ∷ ("TM", "38.969719,59.556278")
    ∷ ("TN", "33.886917,9.537499")
    ∷ ("TO", "-21.178986,-175.198242")
    ∷ ("TR", "38.963745,35.243322")
    ∷ ("TT", "10.691803,-61.222503")
    ∷ ("TV", "-7.109535,177.64933")
    ∷ ("TW", "23.69781,120.960515")
    ∷ ("TZ", "-6.369028,34.888822")
    ∷ ("UA", "48.379433,31.16558")
    ∷ ("UG", "1.373333,32.290275")
    ∷ ("US", "37.09024,-95.712891")
    ∷ ("UY", "-32.522779,-55.765835")
    ∷ ("UZ", "41.377491,64.585262")
    ∷ ("VA", "41.902916,12.453389")
    ∷ ("VC", "12.984305,-61.287228")
    ∷ ("VE", "6.42375,-66.58973")
    ∷ ("VG", "18.420695,-64.639968")
    ∷ ("VI", "18.335765,-64.896335")
    ∷ ("VN", "14.058324,108.277199")
    ∷ ("VU", "-15.376706,166.959158")
    ∷ ("WF", "-13.768752,-177.156097")
    ∷ ("WS", "-13.759029,-172.104629")
    ∷ ("XK", "42.602636,20.902977")
    ∷ ("YE", "15.552727,48.516388")
    ∷ ("YT", "-12.8275,45.166244")
    ∷ ("ZA", "-30.559482,22.937506")
    ∷ ("ZM", "-13.133897,27.849332")
    ∷ ("ZW", "-19.015438,29.154857")
    ∷ []

pub all_places-ke_to_zw : all_places ke_to_zw ≡ true
unfolding all_places
all_places-ke_to_zw = refl
