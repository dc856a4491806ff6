-- ===== src/Dashboard/Mirror.antt =====
-- The list of keys on web/src/app/dashboard/page.tsx and the keys that the server has.
use uni_llm.Api
use uni_llm.Prelude.{Bool, List, String, [], none, or_else, some, refl, ◌∷◌, ◌≡◌}
use uni_llm.Net.{Parsed, Host, Outcome, Request, Session, err, fetch, ok, parsed, response}
use uni_llm.I18n.Shape.{Messages}
use uni_llm.Api.{stored_token}
use uni_llm.Api.Keeping.{Bears, IsBare, Keeps}
use uni_llm.Api.Token.{outcome_of}
use uni_llm.Together.{start_five}
use uni_llm.Dashboard.{ApiKey, DashboardPage, Readers, data_requests}
use uni_llm.Dashboard.Actions.{Action, act}

module _ (h : Host) (read : Readers h) (t : Messages) where
  -- A server with `JWTAuth` of api/middleware/auth.go: it grants the requests to read that bear the user's
  -- token, answers 401 to a request on the keys that bears none, what it lists as the user's keys is what it
  -- has, and only a request on the keys whose granting answer arrives changes them.
  pub record KeyService : Type 0 where
    pub token : String
    pub listed : h.Server → List (ApiKey h.Number)
    pub reads :
        (x : h.Server) (r : Request h.Number)
        → r.method ≡ none
        → Bears token r
        → (j : h.Json) × ((h.respond x r).1 ≡ response 200 (parsed j))
          × (r.url ≡ "/api/keys" → or_else (read.keys j) [] ≡ listed x)
    pub guarded :
        (x : h.Server) (r : Request h.Number)
        → r.url ≡ "/api/keys"
        → IsBare r
        → (body : Parsed h.Json) × ((h.respond x r).1 ≡ response 401 body)
    pub unchanged :
        (x : h.Server) (r : Request h.Number)
        → r.method ≡ none
        → listed (h.respond x r).0 ≡ listed x
    pub elsewhere :
        (x : h.Server) (r : Request h.Number)
        → r.url ≡ "/api/password"
        → listed (h.respond x r).0 ≡ listed x
    pub refused :
        (x : h.Server) (r : Request h.Number) (m : String)
        → outcome_of h (h.respond x r).1 ≡ err m
        → listed (h.respond x r).0 ≡ listed x

  module _ (service : KeyService) where
    -- The page lists the keys that the server has.
    abbrev pub Mirrors : DashboardPage h.Number × Session h → Type 0
    Mirrors q = q.0.keys ≡ service.listed q.1.server

    -- Besides, the browser keeps the token that the server honours, or none.
    abbrev IsWatched : DashboardPage h.Number × Session h → Type 0
    IsWatched q = Mirrors q × Keeps service.token q.1.browser

    browser-start_five : (s : Session h) → (start_five h data_requests s).1.browser ≡ s.browser
    unfolding start_five fetch
    browser-start_five s = refl

    -- What a call on the keys leaves to the handlers.
    record IsAnswered (p : DashboardPage h.Number) (r : Outcome h.Json × Session h) : Type 0 where
      if_refused : (m : String) → r.0 ≡ err m → IsWatched (p, r.1)
      if_granted : (j : h.Json) → r.0 ≡ ok j → stored_token r.1.browser ≡ some service.token

    -- What the user does, each time with the answer to `confirm`, if it is asked.
    unfoldable pub act_all :
        List (Bool × Action h.Number)
        → DashboardPage h.Number × Session h
        → DashboardPage h.Number × Session h
    act_all [] q = q
    act_all (a ∷ actions) q = act_all actions (act h read t a.0 a.1 q.0 q.1)
