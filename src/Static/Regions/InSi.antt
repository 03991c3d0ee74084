-- ===== src/Static/Regions/InSi.antt =====
-- static/regions.go, SI-001 to SI-149.
use locate.Prelude.{String, ◌≡◌, refl, true, [], ◌∷◌}
use locate.Prelude.Maps.{Map}
use locate.Clientgeo.Coordinates.{all_places}

abbrev pub in_si : Map String
in_si =
    ("SI-001", "45.90430000,13.9294000")
    ∷ ("SI-002", "46.60860000,16.2307000")
    ∷ ("SI-003", "46.38980000,14.0001000")
    ∷ ("SI-004", "46.29610000,13.9538000")
    ∷ ("SI-005", "45.90950000,14.3756000")
    ∷ ("SI-006", "46.37250000,13.6184000")
    ∷ ("SI-007", "46.01890000,13.5437000")
    ∷ ("SI-008", "45.94790000,14.4279000")
    ∷ ("SI-009", "45.90820000,15.6036000")
    ∷ ("SI-011", "46.23980000,15.2874000")
    ∷ ("SI-012", "46.25240000,14.5061000")
    ∷ ("SI-013", "45.78860000,14.3817000")
    ∷ ("SI-014", "46.13350000,13.9799000")
    ∷ ("SI-015", "46.55920000,16.2936000")
    ∷ ("SI-016", "46.47040000,14.8190000")
    ∷ ("SI-017", "45.52290000,15.2135000")
    ∷ ("SI-018", "46.47670000,15.8853000")
    ∷ ("SI-019", "45.69270000,14.0149000")
    ∷ ("SI-020", "45.83420000,14.7253000")
    ∷ ("SI-021", "46.07160000,14.3138000")
    ∷ ("SI-022", "46.09960000,14.6741000")
    ∷ ("SI-023", "46.14930000,14.6294000")
    ∷ ("SI-024", "46.44060000,15.9915000")
    ∷ ("SI-025", "46.59060000,15.0226000")
    ∷ ("SI-026", "46.51200000,15.7689000")
    ∷ ("SI-027", "46.12410000,14.1223000")
    ∷ ("SI-028", "46.36680000,16.0215000")
    ∷ ("SI-029", "46.62560000,15.9663000")
    ∷ ("SI-030", "46.29720000,14.7905000")
    ∷ ("SI-031", "46.80910000,16.2128000")
    ∷ ("SI-032", "45.94210000,14.6714000")
    ∷ ("SI-033", "46.84510000,16.2448000")
    ∷ ("SI-034", "46.12890000,15.1268000")
    ∷ ("SI-035", "45.56790000,13.9929000")
    ∷ ("SI-036", "45.99220000,13.9955000")
    ∷ ("SI-037", "45.93980000,14.5158000")
    ∷ ("SI-038", "45.56780000,14.2891000")
    ∷ ("SI-039", "45.90170000,14.8211000")
    ∷ ("SI-040", "45.51530000,13.6430000")
    ∷ ("SI-041", "46.44770000,14.0702000")
    ∷ ("SI-042", "46.48410000,15.9822000")
    ∷ ("SI-043", "46.22850000,14.7330000")
    ∷ ("SI-044", "46.10840000,13.6455000")
    ∷ ("SI-045", "46.39820000,15.7544000")
    ∷ ("SI-046", "46.24590000,13.5507000")
    ∷ ("SI-047", "46.68090000,16.3831000")
    ∷ ("SI-048", "45.64180000,14.9161000")
    ∷ ("SI-049", "45.82250000,13.7382000")
    ∷ ("SI-05", "46.14540000,14.9240000")
    ∷ ("SI-050", "45.50760000,13.8237000")
    ∷ ("SI-051", "46.06660000,15.5721000")
    ∷ ("SI-052", "46.23820000,14.2919000")
    ∷ ("SI-053", "46.44820000,13.8502000")
    ∷ ("SI-054", "45.93970000,15.4671000")
    ∷ ("SI-055", "46.65270000,15.5921000")
    ∷ ("SI-056", "46.84610000,16.0916000")
    ∷ ("SI-057", "46.14040000,15.2480000")
    ∷ ("SI-058", "46.55750000,15.8548000")
    ∷ ("SI-059", "46.56930000,16.4217000")
    ∷ ("SI-060", "46.07520000,14.9182000")
    ∷ ("SI-061", "46.06160000,14.5799000")
    ∷ ("SI-062", "46.37210000,14.8415000")
    ∷ ("SI-063", "46.51120000,16.1653000")
    ∷ ("SI-064", "45.93990000,14.1998000")
    ∷ ("SI-065", "45.66380000,14.4776000")
    ∷ ("SI-066", "45.65060000,14.6363000")
    ∷ ("SI-067", "46.34360000,14.7245000")
    ∷ ("SI-068", "46.18270000,14.7761000")
    ∷ ("SI-069", "46.31480000,15.7455000")
    ∷ ("SI-070", "46.55600000,15.6414000")
    ∷ ("SI-071", "46.12360000,14.3971000")
    ∷ ("SI-072", "46.16050000,14.5520000")
    ∷ ("SI-073", "45.65010000,15.2985000")
    ∷ ("SI-074", "46.52810000,14.8493000")
    ∷ ("SI-075", "45.84770000,13.6373000")
    ∷ ("SI-076", "46.44420000,15.2253000")
    ∷ ("SI-077", "46.13370000,14.7576000")
    ∷ ("SI-078", "46.71590000,16.2705000")
    ∷ ("SI-079", "46.35930000,14.9377000")
    ∷ ("SI-080", "46.65320000,16.1719000")
    ∷ ("SI-081", "46.62230000,15.1348000")
    ∷ ("SI-082", "46.29320000,14.3004000")
    ∷ ("SI-083", "46.28640000,14.9127000")
    ∷ ("SI-084", "45.87960000,13.7337000")
    ∷ ("SI-085", "45.77790000,15.1945000")
    ∷ ("SI-086", "46.58740000,16.2800000")
    ∷ ("SI-087", "46.44110000,16.1469000")
    ∷ ("SI-089", "46.62540000,15.7082000")
    ∷ ("SI-090", "45.48010000,13.6309000")
    ∷ ("SI-091", "45.68340000,14.2444000")
    ∷ ("SI-092", "46.04800000,15.6501000")
    ∷ ("SI-093", "46.60210000,15.3569000")
    ∷ ("SI-094", "45.79240000,14.1802000")
    ∷ ("SI-095", "46.32860000,14.4600000")
    ∷ ("SI-096", "46.42730000,15.8673000")
    ∷ ("SI-097", "46.75060000,16.1320000")
    ∷ ("SI-098", "46.45070000,15.6401000")
    ∷ ("SI-099", "46.06580000,15.1559000")
    ∷ ("SI-100", "46.62660000,16.0594000")
    ∷ ("SI-101", "46.60290000,15.2526000")
    ∷ ("SI-102", "46.33610000,14.1929000")
    ∷ ("SI-103", "46.54510000,14.9541000")
    ∷ ("SI-104", "45.74130000,14.7047000")
    ∷ ("SI-105", "46.79900000,16.0170000")
    ∷ ("SI-106", "46.24330000,15.6536000")
    ∷ ("SI-107", "46.23830000,15.7385000")
    ∷ ("SI-108", "46.51560000,15.4860000")
    ∷ ("SI-109", "45.64770000,15.1610000")
    ∷ ("SI-110", "46.01320000,15.2616000")
    ∷ ("SI-111", "45.73190000,13.8449000")
    ∷ ("SI-112", "46.49140000,15.0760000")
    ∷ ("SI-113", "46.42410000,15.5283000")
    ∷ ("SI-114", "46.32320000,15.4612000")
    ∷ ("SI-115", "46.45440000,15.7678000")
    ∷ ("SI-116", "46.56290000,16.0294000")
    ∷ ("SI-117", "46.24080000,14.4252000")
    ∷ ("SI-118", "46.69040000,15.7130000")
    ∷ ("SI-119", "45.81430000,15.3503000")
    ∷ ("SI-120", "46.17840000,15.4424000")
    ∷ ("SI-121", "45.92210000,15.3006000")
    ∷ ("SI-122", "46.15760000,14.2779000")
    ∷ ("SI-123", "45.95830000,14.5747000")
    ∷ ("SI-124", "46.21880000,15.5302000")
    ∷ ("SI-125", "46.34210000,15.0326000")
    ∷ ("SI-126", "46.42230000,14.9905000")
    ∷ ("SI-127", "46.19960000,15.3276000")
    ∷ ("SI-128", "46.14560000,13.8136000")
    ∷ ("SI-129", "46.07800000,15.0410000")
    ∷ ("SI-130", "45.93820000,15.0537000")
    ∷ ("SI-131", "46.38830000,14.3377000")
    ∷ ("SI-132", "46.60890000,16.3308000")
    ∷ ("SI-133", "46.37490000,15.1364000")
    ∷ ("SI-134", "45.84460000,14.5889000")
    ∷ ("SI-135", "46.37040000,15.8973000")
    ∷ ("SI-136", "45.82710000,13.9723000")
    ∷ ("SI-137", "46.40730000,15.2954000")
    ∷ ("SI-138", "46.17260000,14.4982000")
    ∷ ("SI-139", "46.31880000,15.3100000")
    ∷ ("SI-140", "45.94910000,14.2947000")
    ∷ ("SI-141", "46.56690000,15.1575000")
    ∷ ("SI-143", "46.38240000,16.0599000")
    ∷ ("SI-144", "46.39140000,15.3705000")
    ∷ ("SI-146", "46.22790000,14.1184000")
    ∷ ("SI-147", "46.04590000,14.1084000")
    ∷ ("SI-148", "46.61360000,15.8981000")
    ∷ ("SI-149", "46.14540000,15.5811000")
    ∷ []

pub all_places-in_si : all_places in_si ≡ true
unfolding all_places
all_places-in_si = refl
