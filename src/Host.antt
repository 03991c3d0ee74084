-- ===== src/Host.antt =====
-- github.com/m-lab/go/host, which is not in the repository: host names as the code uses them.
use locate.Prelude.{String, Option}

pub record HostPackage : Type 1 where
  pub Name : Type 0
  -- `host.Parse`, `none` where it returns an error
  pub parse : String → Option Name
  -- the methods `String` and `StringWithService`
  pub string : Name → String
  pub string_with_service : Name → String
  pub org : Name → String
  pub version : Name → String
  pub service : Name → String
  -- the assignment `m.Service = s`
  pub set_service : String → Name → Name
