-- ===== src/Static/Regions/AdToAs.antt =====
-- static/regions.go, AD-02 to AS-X05~.
use locate.Prelude.{String, ◌≡◌, refl, true, [], ◌∷◌}
use locate.Prelude.Maps.{Map}
use locate.Clientgeo.Coordinates.{all_places}

abbrev pub ad_to_as : Map String
ad_to_as =
    ("AD-02", "42.58420000,1.6054300")
    ∷ ("AD-03", "42.53810000,1.6441000")
    ∷ ("AD-04", "42.55000000,1.4708300")
    ∷ ("AD-05", "42.60360000,1.5243700")
    ∷ ("AD-06", "42.45110000,1.4797500")
    ∷ ("AD-07", "42.51280000,1.5106600")
    ∷ ("AD-08", "42.49500000,1.5942800")
    ∷ ("AE-AJ", "25.39710000,55.5411000")
    ∷ ("AE-AZ", "23.52380000,54.0817000")
    ∷ ("AE-DU", "24.95080000,55.3436000")
    ∷ ("AE-FU", "25.47520000,56.2221000")
    ∷ ("AE-RK", "25.69640000,55.9791000")
    ∷ ("AE-SH", "25.17200000,55.7788000")
    ∷ ("AE-UQ", "25.52180000,55.7217000")
    ∷ ("AE-X01~", "24.92500000,56.2932000")
    ∷ ("AE-X02~", "24.81640000,56.0315000")
    ∷ ("AF-BAL", "36.68510000,67.2185000")
    ∷ ("AF-BAM", "34.96930000,67.2365000")
    ∷ ("AF-BDG", "35.26990000,63.8495000")
    ∷ ("AF-BDS", "36.78100000,70.8036000")
    ∷ ("AF-BGL", "35.85880000,68.9831000")
    ∷ ("AF-FRA", "32.53140000,62.6498000")
    ∷ ("AF-FYB", "35.80430000,64.7678000")
    ∷ ("AF-GHA", "33.40790000,67.8006000")
    ∷ ("AF-GHO", "34.00200000,64.9224000")
    ∷ ("AF-HEL", "30.92780000,63.9824000")
    ∷ ("AF-HER", "34.15510000,62.4845000")
    ∷ ("AF-JOW", "36.89710000,65.9617000")
    ∷ ("AF-KAB", "34.49490000,69.3846000")
    ∷ ("AF-KAN", "31.13500000,65.7163000")
    ∷ ("AF-KAP", "34.97480000,69.6626000")
    ∷ ("AF-KDZ", "36.90430000,68.6820000")
    ∷ ("AF-KHO", "33.36300000,69.8211000")
    ∷ ("AF-KNR", "34.90130000,71.1061000")
    ∷ ("AF-LAG", "34.72730000,70.2085000")
    ∷ ("AF-LOG", "34.08570000,69.3047000")
    ∷ ("AF-NAN", "34.21530000,70.3027000")
    ∷ ("AF-NIM", "30.75280000,62.2069000")
    ∷ ("AF-NUR", "35.28980000,70.7567000")
    ∷ ("AF-PAR", "34.99840000,68.8995000")
    ∷ ("AF-PIA", "32.51060000,68.6510000")
    ∷ ("AF-PKA", "33.57500000,69.3826000")
    ∷ ("AF-SAM", "36.05060000,67.6830000")
    ∷ ("AF-SAR", "35.70620000,66.2158000")
    ∷ ("AF-TAK", "36.83350000,69.8124000")
    ∷ ("AF-URU", "32.80700000,66.0947000")
    ∷ ("AF-WAR", "34.42690000,68.1087000")
    ∷ ("AF-ZAB", "32.40330000,67.1401000")
    ∷ ("AG-03", "17.10840000,-61.7804000")
    ∷ ("AG-04", "17.11010000,-61.8237000")
    ∷ ("AG-05", "17.03680000,-61.8570000")
    ∷ ("AG-06", "17.03520000,-61.7671000")
    ∷ ("AG-07", "17.09350000,-61.7404000")
    ∷ ("AG-08", "17.06010000,-61.7021000")
    ∷ ("AG-10", "17.61550000,-61.7920000")
    ∷ ("AG-11", "16.93350000,-62.3467000")
    ∷ ("AI-X00", "18.59820000,-63.4262000")
    ∷ ("AI-X01~", "18.18890000,-63.0943000")
    ∷ ("AI-X02~", "18.26220000,-62.9852000")
    ∷ ("AI-X03~", "18.20890000,-63.0660000")
    ∷ ("AI-X04~", "18.27050000,-63.0028000")
    ∷ ("AI-X05~", "18.22430000,-63.0740000")
    ∷ ("AI-X06~", "18.26060000,-63.0330000")
    ∷ ("AI-X07~", "18.21920000,-63.0814000")
    ∷ ("AI-X08~", "18.23010000,-63.0151000")
    ∷ ("AI-X09~", "18.20830000,-63.0881000")
    ∷ ("AI-X10~", "18.23870000,-63.0368000")
    ∷ ("AI-X11~", "18.21730000,-63.0439000")
    ∷ ("AI-X12~", "18.22990000,-63.0400000")
    ∷ ("AI-X13~", "18.23210000,-63.0520000")
    ∷ ("AI-X14~", "18.18650000,-63.1384000")
    ∷ ("AL-02", "41.51520000,19.6522000")
    ∷ ("AL-04", "40.81120000,19.6047000")
    ∷ ("AL-06", "40.61380000,20.6648000")
    ∷ ("AL-07", "42.09020000,20.1933000")
    ∷ ("AL-10", "42.21440000,19.7573000")
    ∷ ("AL-BR", "40.64410000,20.0865000")
    ∷ ("AL-DI", "41.60800000,20.1772000")
    ∷ ("AL-DR", "41.13260000,19.8383000")
    ∷ ("AL-EL", "41.02990000,20.1358000")
    ∷ ("AL-GJ", "40.19270000,20.1868000")
    ∷ ("AL-LE", "41.82400000,19.8649000")
    ∷ ("AL-VL", "40.19080000,19.7946000")
    ∷ ("AM-AG", "40.32130000,44.0736000")
    ∷ ("AM-AR", "39.92040000,44.7304000")
    ∷ ("AM-AV", "40.09920000,44.0464000")
    ∷ ("AM-ER", "40.14740000,44.5330000")
    ∷ ("AM-GR", "40.27800000,45.3848000")
    ∷ ("AM-KT", "40.37470000,44.7191000")
    ∷ ("AM-LO", "40.93470000,44.4524000")
    ∷ ("AM-SH", "40.81940000,43.8178000")
    ∷ ("AM-SU", "39.24790000,46.1518000")
    ∷ ("AM-VD", "39.71830000,45.4421000")
    ∷ ("AO-BGO", "-8.99949000,13.9070000")
    ∷ ("AO-BGU", "-12.79930000,13.8119000")
    ∷ ("AO-BIE", "-12.79970000,17.4921000")
    ∷ ("AO-CAB", "-4.80148000,12.5430000")
    ∷ ("AO-CCU", "-16.31100000,19.9218000")
    ∷ ("AO-CNN", "-16.62710000,15.2810000")
    ∷ ("AO-CNO", "-9.69880000,14.9458000")
    ∷ ("AO-CUS", "-10.92320000,15.0504000")
    ∷ ("AO-HUA", "-12.55870000,15.6947000")
    ∷ ("AO-HUI", "-14.73480000,14.9844000")
    ∷ ("AO-LNO", "-8.47220000,19.6268000")
    ∷ ("AO-LSU", "-10.23410000,20.3821000")
    ∷ ("AO-LUA", "-8.95941000,13.3166000")
    ∷ ("AO-MAL", "-9.14742000,16.9731000")
    ∷ ("AO-MOX", "-13.28100000,21.0033000")
    ∷ ("AO-NAM", "-15.82490000,12.6525000")
    ∷ ("AO-UIG", "-6.95896000,15.4475000")
    ∷ ("AO-ZAI", "-6.78301000,13.6096000")
    ∷ ("AQ-X01~", "-81.69050000,0.2382560")
    ∷ ("AQ-X02~", "-83.03840000,-170.3430000")
    ∷ ("AR-A", "-25.02030000,-64.4715000")
    ∷ ("AR-B", "-36.67340000,-60.1133000")
    ∷ ("AR-C", "-34.62020000,-58.4527000")
    ∷ ("AR-D", "-33.94690000,-66.1350000")
    ∷ ("AR-E", "-32.02750000,-59.2824000")
    ∷ ("AR-F", "-29.37620000,-67.5283000")
    ∷ ("AR-G", "-27.68820000,-63.4450000")
    ∷ ("AR-H", "-26.50900000,-60.8752000")
    ∷ ("AR-J", "-30.97000000,-68.6612000")
    ∷ ("AR-K", "-26.77090000,-67.0086000")
    ∷ ("AR-L", "-37.38610000,-65.8386000")
    ∷ ("AR-M", "-34.84840000,-68.5423000")
    ∷ ("AR-N", "-27.12620000,-54.8406000")
    ∷ ("AR-P", "-24.91460000,-59.9494000")
    ∷ ("AR-Q", "-38.35790000,-69.9833000")
    ∷ ("AR-R", "-40.12610000,-67.3641000")
    ∷ ("AR-S", "-30.77640000,-60.8593000")
    ∷ ("AR-T", "-26.97110000,-65.3387000")
    ∷ ("AR-U", "-43.99950000,-67.8642000")
    ∷ ("AR-V", "-54.38870000,-67.5329000")
    ∷ ("AR-W", "-28.83870000,-57.6482000")
    ∷ ("AR-X", "-32.32750000,-63.7501000")
    ∷ ("AR-Y", "-23.17640000,-65.7054000")
    ∷ ("AR-Z", "-49.04280000,-69.6596000")
    ∷ ("AS-X01~", "-14.27200000,-170.6390000")
    ∷ ("AS-X02~", "-14.23380000,-169.4930000")
    ∷ ("AS-X03~", "-14.52500000,-168.1660000")
    ∷ ("AS-X04~", "-11.05770000,-171.0800000")
    ∷ ("AS-X05~", "-14.32410000,-170.7680000")
    ∷ []

pub all_places-ad_to_as : all_places ad_to_as ≡ true
unfolding all_places
all_places-ad_to_as = refl
