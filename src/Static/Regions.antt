-- ===== src/Static/Regions.antt =====
-- static/regions.go: the table, in parts.
pub mod AdToAs
pub mod AtToBe
pub mod BfToBo
pub mod BrToCf
pub mod CgToCn
pub mod CoToDm
pub mod DoToEh
pub mod ErToFo
pub mod FrToGa
pub mod InGb
pub mod GbToGm
pub mod GnToHn
pub mod HrToIm
pub mod InToIs
pub mod ItToJo
pub mod JpToKy
pub mod KzToLu
pub mod LvToLy
pub mod MaToMh
pub mod MkToMr
pub mod MsToMw
pub mod MxToNi
pub mod NlToPf
pub mod PgToPs
pub mod PtToRs
pub mod RuToSd
pub mod SeToSh
pub mod InSi
pub mod SiToSy
pub mod SzToTm
pub mod TnToTw
pub mod TzToUa
pub mod UgToUm
pub mod UsToVi
pub mod VnToZa
pub mod ZmToZw
use locate.Prelude.{String, List, [], ◌∷◌}
use locate.Prelude.Maps.{Map}
use locate.Clientgeo.Coordinates.{all_places, join, IsTable, all_places-join, all_places-IsTable}
use locate.Static.Regions.AdToAs.{ad_to_as, all_places-ad_to_as}
use locate.Static.Regions.AtToBe.{at_to_be, all_places-at_to_be}
use locate.Static.Regions.BfToBo.{bf_to_bo, all_places-bf_to_bo}
use locate.Static.Regions.BrToCf.{br_to_cf, all_places-br_to_cf}
use locate.Static.Regions.CgToCn.{cg_to_cn, all_places-cg_to_cn}
use locate.Static.Regions.CoToDm.{co_to_dm, all_places-co_to_dm}
use locate.Static.Regions.DoToEh.{do_to_eh, all_places-do_to_eh}
use locate.Static.Regions.ErToFo.{er_to_fo, all_places-er_to_fo}
use locate.Static.Regions.FrToGa.{fr_to_ga, all_places-fr_to_ga}
use locate.Static.Regions.InGb.{in_gb, all_places-in_gb}
use locate.Static.Regions.GbToGm.{gb_to_gm, all_places-gb_to_gm}
use locate.Static.Regions.GnToHn.{gn_to_hn, all_places-gn_to_hn}
use locate.Static.Regions.HrToIm.{hr_to_im, all_places-hr_to_im}
use locate.Static.Regions.InToIs.{in_to_is, all_places-in_to_is}
use locate.Static.Regions.ItToJo.{it_to_jo, all_places-it_to_jo}
use locate.Static.Regions.JpToKy.{jp_to_ky, all_places-jp_to_ky}
use locate.Static.Regions.KzToLu.{kz_to_lu, all_places-kz_to_lu}
use locate.Static.Regions.LvToLy.{lv_to_ly, all_places-lv_to_ly}
use locate.Static.Regions.MaToMh.{ma_to_mh, all_places-ma_to_mh}
use locate.Static.Regions.MkToMr.{mk_to_mr, all_places-mk_to_mr}
use locate.Static.Regions.MsToMw.{ms_to_mw, all_places-ms_to_mw}
use locate.Static.Regions.MxToNi.{mx_to_ni, all_places-mx_to_ni}
use locate.Static.Regions.NlToPf.{nl_to_pf, all_places-nl_to_pf}
use locate.Static.Regions.PgToPs.{pg_to_ps, all_places-pg_to_ps}
use locate.Static.Regions.PtToRs.{pt_to_rs, all_places-pt_to_rs}
use locate.Static.Regions.RuToSd.{ru_to_sd, all_places-ru_to_sd}
use locate.Static.Regions.SeToSh.{se_to_sh, all_places-se_to_sh}
use locate.Static.Regions.InSi.{in_si, all_places-in_si}
use locate.Static.Regions.SiToSy.{si_to_sy, all_places-si_to_sy}
use locate.Static.Regions.SzToTm.{sz_to_tm, all_places-sz_to_tm}
use locate.Static.Regions.TnToTw.{tn_to_tw, all_places-tn_to_tw}
use locate.Static.Regions.TzToUa.{tz_to_ua, all_places-tz_to_ua}
use locate.Static.Regions.UgToUm.{ug_to_um, all_places-ug_to_um}
use locate.Static.Regions.UsToVi.{us_to_vi, all_places-us_to_vi}
use locate.Static.Regions.VnToZa.{vn_to_za, all_places-vn_to_za}
use locate.Static.Regions.ZmToZw.{zm_to_zw, all_places-zm_to_zw}

abbrev parts : List (Map String)
parts =
    ad_to_as ∷ at_to_be ∷ bf_to_bo ∷ br_to_cf ∷ cg_to_cn ∷ co_to_dm ∷ do_to_eh ∷ er_to_fo ∷ fr_to_ga
    ∷ in_gb ∷ gb_to_gm ∷ gn_to_hn ∷ hr_to_im ∷ in_to_is ∷ it_to_jo ∷ jp_to_ky ∷ kz_to_lu ∷ lv_to_ly
    ∷ ma_to_mh ∷ mk_to_mr ∷ ms_to_mw ∷ mx_to_ni ∷ nl_to_pf ∷ pg_to_ps ∷ pt_to_rs ∷ ru_to_sd
    ∷ se_to_sh ∷ in_si ∷ si_to_sy ∷ sz_to_tm ∷ tn_to_tw ∷ tz_to_ua ∷ ug_to_um ∷ us_to_vi ∷ vn_to_za
    ∷ zm_to_zw ∷ []

-- `static.Regions`
pub regions : Map String
regions = join parts

-- Every entry is a latitude and a longitude, in degrees.
pub regions-IsTable : IsTable regions
unfolding regions
regions-IsTable = all_places-IsTable (join parts) (
    all_places-join (
      (ad_to_as, all_places-ad_to_as)
      ∷ (at_to_be, all_places-at_to_be)
      ∷ (bf_to_bo, all_places-bf_to_bo)
      ∷ (br_to_cf, all_places-br_to_cf)
      ∷ (cg_to_cn, all_places-cg_to_cn)
      ∷ (co_to_dm, all_places-co_to_dm)
      ∷ (do_to_eh, all_places-do_to_eh)
      ∷ (er_to_fo, all_places-er_to_fo)
      ∷ (fr_to_ga, all_places-fr_to_ga)
      ∷ (in_gb, all_places-in_gb)
      ∷ (gb_to_gm, all_places-gb_to_gm)
      ∷ (gn_to_hn, all_places-gn_to_hn)
      ∷ (hr_to_im, all_places-hr_to_im)
      ∷ (in_to_is, all_places-in_to_is)
      ∷ (it_to_jo, all_places-it_to_jo)
      ∷ (jp_to_ky, all_places-jp_to_ky)
      ∷ (kz_to_lu, all_places-kz_to_lu)
      ∷ (lv_to_ly, all_places-lv_to_ly)
      ∷ (ma_to_mh, all_places-ma_to_mh)
      ∷ (mk_to_mr, all_places-mk_to_mr)
      ∷ (ms_to_mw, all_places-ms_to_mw)
      ∷ (mx_to_ni, all_places-mx_to_ni)
      ∷ (nl_to_pf, all_places-nl_to_pf)
      ∷ (pg_to_ps, all_places-pg_to_ps)
      ∷ (pt_to_rs, all_places-pt_to_rs)
      ∷ (ru_to_sd, all_places-ru_to_sd)
      ∷ (se_to_sh, all_places-se_to_sh)
      ∷ (in_si, all_places-in_si)
      ∷ (si_to_sy, all_places-si_to_sy)
      ∷ (sz_to_tm, all_places-sz_to_tm)
      ∷ (tn_to_tw, all_places-tn_to_tw)
      ∷ (tz_to_ua, all_places-tz_to_ua)
      ∷ (ug_to_um, all_places-ug_to_um)
      ∷ (us_to_vi, all_places-us_to_vi)
      ∷ (vn_to_za, all_places-vn_to_za)
      ∷ (zm_to_zw, all_places-zm_to_zw)
      ∷ []))
