-- ===== src/Siteinfo.antt =====
-- siteinfo/siteinfo.go: the registered machines of an organisation and an experiment.
pub mod Selection
use locate.Prelude.{
  String, Bool, true, false, ◌&&◌, ◌||◌, Option, none, some, List, [], ◌∷◌, ◌==◌, ◌!=◌,
  if◌then◌else◌, Result, ok, err,
}
use locate.Prelude.Maps.{Map, insert}
use locate.Api.{HeartbeatMessage}
use locate.Host.{HostPackage}

module _ (H : HostPackage) (org exp : String) where
  open H use {Name, parse}

  -- the three branches of the loop's body: whether the entry is kept
  unfoldable pub keep : Name → Bool
  keep parts =
      if org != "" && exp == ""
      then org == H.org parts
      else (if org == "" && exp != ""
          then exp == H.service parts
          else org == H.org parts && exp == H.service parts)

  -- The loop; the error carries the key that does not parse.
  unfoldable pub select :
      Map HeartbeatMessage → Map HeartbeatMessage → Result String (Map HeartbeatMessage)
  unfolding keep
  select machines [] = ok machines
  select machines ((k, v) ∷ msgs) = elim (parse k) [
    | none ↦ err k
    | some parts ↦ select (if keep parts then insert k v machines else machines) msgs
  ]

  -- `Machines`, on the first values of the parameters `org` and `exp`
  unfoldable pub machines : Map HeartbeatMessage → Result String (Map HeartbeatMessage)
  unfolding select
  machines msgs = if org != "" || exp != "" then select [] msgs else ok msgs
