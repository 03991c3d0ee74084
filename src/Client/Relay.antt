-- ===== src/Client/Relay.antt =====
-- What the client makes of the answers of the handler `Nearest`.
use Prim.Native.String.{◌++◌}
use locate.Prelude.{
  ℕ, ◌≤◌, String, ◌≡◌, ◌≢◌, refl, ap, ◌∙◌, ◌⊎◌, inl, inr, true, false, Option, none, some, List, [],
  ◌∷◌, ◌==◌, eq_iff, nat_eq, length, Result, ok, err, arith,
}
use locate.Prelude.Maps.{Map}
use locate.Api.{HeartbeatMessage, ApiError}
use locate.Location.Types.{Target}
use locate.Location.Nearest.Laws.{IsFair}
use locate.Handler.Requests.{Request, Response, Service, nearest_handler}
use locate.Handler.Requests.Status.{IsWorking, IsAnswer, IsFailure, nearest_handler_total}
use locate.Client.{
  Http, HttpRequest, Client, NearestResult, ClientError, service_error, get, read_reply, results_of,
  decode, client_nearest,
}

-- The field `results` has `omitempty`.
abbrev pub omit_empty : List Target → Option (List Target)
omit_empty [] = none
omit_empty (t ∷ ts) = some (t ∷ ts)

-- The client returns the targets of a 200, of which there is one at least, and the title of the error of another status.
abbrev pub IsRelayed : Response → Result ClientError (List Target) → Type 0
IsRelayed r c =
    ((r.status ≡ 200) × (1 ≤ length r.results) × (c ≡ ok r.results))
    ⊎ ((e : ApiError) × (r.error ≡ some e)
        × (c ≡ err (service_error (e.title ++ ": " ++ e.detail))))

omit_empty-some : (ts : List Target) → 1 ≤ length ts → omit_empty ts ≡ some ts
omit_empty-some [] h = absurd (omega arith)
omit_empty-some (t ∷ ts) h = refl

-- `marshal` is `json.MarshalIndent` of a `NearestResult` with an error and results.
module _ {Body : Type 0} (W : Http Body) (marshal : Option ApiError → List Target → Body)
    (round_trip : (e : Option ApiError) (ts : List Target)
      → W.unmarshal (marshal e ts) ≡ some (record { error = e; results = omit_empty ts })) where
  -- The body and the status that `writeResult` sends
  abbrev pub sent : Option Response → Option (Body × ℕ)
  sent none = none
  sent (some r) = some (marshal r.error r.results, r.status)

  -- What the client asks for: the service, below the path of the base URL, with its user agent.
  abbrev pub asked : Client → String → HttpRequest
  asked c service = record {
    method = "GET";
    url = W.string (record {
      scheme = c.base_url.scheme;
      host = c.base_url.host;
      path = W.join c.base_url.path service;
      raw_query = c.base_url.raw_query;
    });
    user_agent = c.user_agent;
  }

  decode-reply :
      (c : Client) (body : Body) (status : ℕ) (reply : NearestResult)
      → W.unmarshal body ≡ some reply
      → decode W c (ok (body, status)) ≡ read_reply W c reply status
  unfolding decode
  decode-reply c body status reply e = rw (decode, e) refl

  client_nearest-answer :
      (c : Client) (service : String) (r : Response)
      → c.user_agent ≢ ""
      → W.accepts (asked c service).url ≡ true
      → W.answer (asked c service) ≡ some (marshal r.error r.results, r.status)
      → client_nearest W c service
        ≡ read_reply W c (record { error = r.error; results = omit_empty r.results }) r.status
  unfolding client_nearest get
  client_nearest-answer c service r given accepted answered =
      let named : (c.user_agent == "") ≡ false = ground (arith, eq_iff c.user_agent "", given) in
      rw (accepted, named, answered) (decode-reply c _ r.status _ (round_trip r.error r.results))

  module _ (S : Service) (fair : IsFair S.runtime) (working : IsWorking S.web) (req : Request)
      (instances : Map HeartbeatMessage) (c : Client) where
    failure-status :
        (e : ApiError) → IsFailure S fair working req instances e → nat_eq e.status 200 ≡ false
    failure-status e (inl same) = rw same refl
    failure-status e (inr (inl same)) = rw same refl
    failure-status e (inr (inr (inl same))) = rw same refl
    failure-status e (inr (inr (inr same))) = rw same refl

    read_reply-IsRelayed :
        (r : Response)
        → IsAnswer S fair working req instances r
        → IsRelayed r
            (read_reply W c (record { error = r.error; results = omit_empty r.results }) r.status)
    unfolding read_reply results_of
    read_reply-IsRelayed r (inl (s, e, low, high)) =
        inl (s, low, rw (e, omit_empty-some r.results low) refl)
    read_reply-IsRelayed r (inr (e, failure, s, e', none_left)) =
        let other : nat_eq r.status 200 ≡ false =
          ap (λ n. nat_eq n 200) s ∙ failure-status e failure in
        inr (e, e', rw (e', other) refl)

    -- Where signing works, a client with a user agent, whose request `http.NewRequest` takes and to whose
    -- request (a GET of the base URL with the service added to its path, with the user agent) the handler's
    -- answer comes back, gets what the handler answers, to every request: the targets of a 200, and there
    -- are some, or else the title and the detail of the handler's error, also where no servers are
    -- available: it never returns `ErrNoAvailableServers`.
    pub client_nearest-IsRelayed :
        (service : String) (now : ℕ)
        → c.user_agent ≢ ""
        → W.accepts (asked c service).url ≡ true
        → W.answer (asked c service) ≡ sent (nearest_handler S now req instances)
        → (r : Response) × (nearest_handler S now req instances ≡ some r)
          × IsRelayed r (client_nearest W c service)
    client_nearest-IsRelayed service now given accepted answered =
        let (r, e, answer) = nearest_handler_total S fair working req instances now in
        (
          r,
          e,
          rw (client_nearest-answer c service r given accepted (answered ∙ ap sent e))
              (read_reply-IsRelayed r answer),
        )
