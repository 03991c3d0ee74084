-- ===== src/Url.antt =====
-- net/url, as far as the code uses it: the fields that it reads and sets, and the two functions
-- that go between a URL and its text, which are taken as they are.
use locate.Prelude.{String, Option}

pub record Url : Type 0 where
  pub scheme : String
  pub host : String
  pub path : String
  pub raw_query : String

pub record UrlPackage : Type 0 where
  -- `url.Parse`, `none` where it returns an error
  pub parse : String → Option Url
  -- the method `String`
  pub string : Url → String
  -- the method `Port`, "" where the URL has none
  pub port : Url → String

-- the zero value
abbrev pub no_url : Url
no_url = record { scheme = ""; host = ""; path = ""; raw_query = "" }
