-- ===== src/Client.antt =====
-- api/locate/client.go: the client of the HTTP API.
pub mod Relay
use Prim.Native.String.{◌++◌}
use locate.Prelude.{
  ℕ, String, Bool, true, false, not, ◌&&◌, Option, none, some, List, [], ◌∷◌, ◌==◌, nat_eq,
  if◌then◌else◌, Result, ok, err,
}
use locate.Api.{ApiError}
use locate.Url.{Url}
use locate.Location.Types.{Target}

-- `v2.NearestResult`, where `none` is nil
pub record NearestResult : Type 0 where
  pub error : Option ApiError
  pub results : Option (List Target)

-- What `Client.Nearest` returns as an error; a `service_error` carries its text.
pub data ClientError : Type 0 where
  invalid_request no_user_agent transport_error unmarshal_error no_available_servers : ClientError
  service_error : String → ClientError

-- `http.Request`, as far as the client fills it.
pub record HttpRequest : Type 0 where
  pub method : String
  pub url : String
  pub user_agent : String

-- What the client takes from elsewhere: `path.Join` of two elements, the method `String` of a URL, whether
-- `http.NewRequestWithContext` takes a URL, what `HTTPClient.Do` answers to a request and the reading of
-- the body gives, `none` for an error, and `json.Unmarshal`, `none` for an error.
pub record Http (Body : Type 0) : Type 0 where
  pub join : String → String → String
  pub string : Url → String
  pub accepts : String → Bool
  pub answer : HttpRequest → Option (Body × ℕ)
  pub unmarshal : Body → Option NearestResult

pub record Client : Type 0 where
  pub user_agent : String
  pub base_url : Url

module _ {Body : Type 0} (W : Http Body) (c : Client) where
  -- the method `get`
  unfoldable pub get : String → Result ClientError (Body × ℕ)
  get url =
      if not (W.accepts url)
      then err invalid_request
      else (if c.user_agent == ""
          then err no_user_agent
          else elim (W.answer (record { method = "GET"; url = url; user_agent = c.user_agent })) [
            | none ↦ err transport_error
            | some reply ↦ ok reply
          ])

  unfoldable pub results_of : Option (List Target) → Result ClientError (List Target)
  results_of none = err no_available_servers
  results_of (some targets) = ok targets

  unfoldable pub read_reply : NearestResult → ℕ → Result ClientError (List Target)
  unfolding results_of
  read_reply reply status = elim reply.error [
    | none ↦ results_of reply.results
    | some e ↦
        if not (nat_eq status 200)
        then err (service_error (e.title ++ ": " ++ e.detail))
        else results_of reply.results
  ]

  unfoldable pub decode : Result ClientError (Body × ℕ) → Result ClientError (List Target)
  unfolding read_reply
  decode (err e) = err e
  decode (ok (body, status)) = elim (W.unmarshal body) [
    | none ↦ err unmarshal_error
    | some reply ↦ read_reply reply status
  ]

  -- `Nearest`
  unfoldable pub client_nearest : String → Result ClientError (List Target)
  unfolding get decode
  client_nearest service =
      let req_url : Url = record c.base_url { path = W.join c.base_url.path service } in
      decode (get (W.string req_url))
