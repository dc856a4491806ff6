-- ===== src/Api.antt =====
-- web/src/lib/api.ts: the client of the user API. One function for each function of the file, over
-- the session that it reads and changes.
pub mod Token
pub mod Trace
pub mod Automaton
pub mod Keeping
use uni_llm.Prelude.{
  Bool, List, Option, String, [], false, if◌then◌else◌, is_empty, none, put, show_nat, some, spread,
  text_or, true, ℕ, ◌<+>◌, ◌==◌, ◌∷◌,
}
use uni_llm.Net.{
  Body, Browser, Host, Options, Outcome, Parsed, Reply, Request, Session, err, fetch, get_item,
  go_to, is_ok_status, number, ok, parsed, rejected, remove_item, response, set_item, str,
  unparsable,
}

abbrev pub api_base : String
api_base = "/api"

-- `localStorage.getItem("token")` where there is a window, as a condition: a missing and an empty
-- token are both falsy.
unfoldable pub stored_token : Browser → Option String
stored_token b =
    if b.has_window
    then elim (get_item "token" b) [ none ↦ none | some t ↦ if is_empty t then none else some t ]
    else none

abbrev pub with_token : Option String → List (String × String) → List (String × String)
with_token none headers = headers
with_token (some t) headers = put "Authorization" ("Bearer " <+> t) headers

-- The headers of a request: JSON, the caller's, and the token.
unfoldable pub headers_of : List (String × String) → Browser → List (String × String)
unfolding stored_token
headers_of given b =
    with_token (stored_token b) (spread (("Content-Type", "application/json") ∷ []) given)

-- What a 401 does to the browser.
unfoldable pub sign_off : Browser → Browser
sign_off b = if b.has_window then go_to "/login" (remove_item "token" b) else b

abbrev pub no_options : {Number : Type 0} → Options Number
no_options = record { method = none; headers = []; body = none }

abbrev pub send_json : {Number : Type 0} → String → Body Number → Options Number
send_json m b = record { method = some m; headers = []; body = some b }

unfoldable pub request_of :
    {Number : Type 0} → String → String → Options Number → Browser → Request Number
unfolding headers_of
request_of base path o b = record {
  url = base <+> path;
  method = o.method;
  headers = headers_of o.headers b;
  body = o.body;
}

module _ (h : Host) where
  open h use {Json, Number, error_of, token_of}

  -- `throw new Error(data.error || …)`; a body that is no JSON counts as `{}`.
  unfoldable pub failure : ℕ → Parsed Json → String
  failure status (parsed j) = text_or (error_of j) ("Request failed: " <+> show_nat status)
  failure status (unparsable _) = "Request failed: " <+> show_nat status

  unfoldable pub body_of : Parsed Json → Outcome Json
  body_of (parsed j) = ok j
  body_of (unparsable m) = err m

  -- `fetchAPI` after the response has come.
  unfoldable pub receive : Reply Json → Session h → Outcome Json × Session h
  unfolding sign_off failure body_of
  receive (rejected m) s = (err m, s)
  receive (response status p) s =
      if status == 401
      then (err "Unauthorized", record s { browser = sign_off s.browser })
      else if is_ok_status status
      then (body_of p, s)
      else (err (failure status p), s)

  unfoldable pub fetch_api : String → Options Number → Session h → Outcome Json × Session h
  fetch_api path o s =
      let (reply, s') = fetch h (request_of api_base path o s.browser) s in receive reply s'

  -- `localStorage.setItem("token", data.token); return data;`
  unfoldable pub keep_token : Outcome Json × Session h → Outcome Json × Session h
  keep_token (err m, s) = (err m, s)
  keep_token (ok j, s) =
      if s.browser.has_window
      then (ok j, record s { browser = set_item "token" (token_of j) s.browser })
      else (err "localStorage is not defined", s)

  unfoldable pub login : String → String → Session h → Outcome Json × Session h
  login email password s = keep_token (
      fetch_api "/auth/login"
        (send_json "POST" (("email", str email) ∷ ("password", str password) ∷ [])) s)

  unfoldable pub register : String → String → String → Session h → Outcome Json × Session h
  register email password name s = keep_token (
      fetch_api "/auth/register"
        (send_json "POST"
          (("email", str email) ∷ ("password", str password) ∷ ("name", str name) ∷ []))
        s)

  unfoldable pub get_me : Session h → Outcome Json × Session h
  get_me = fetch_api "/me" no_options

  unfoldable pub get_usage_summary : Session h → Outcome Json × Session h
  get_usage_summary = fetch_api "/usage/summary" no_options

  unfoldable pub get_usage_by_model : Session h → Outcome Json × Session h
  get_usage_by_model = fetch_api "/usage/by-model" no_options

  unfoldable pub get_usage_daily : Session h → Outcome Json × Session h
  get_usage_daily = fetch_api "/usage/daily" no_options

  unfoldable pub get_usage_recent : Session h → Outcome Json × Session h
  get_usage_recent = fetch_api "/usage/recent" no_options

  unfoldable pub get_api_keys : Session h → Outcome Json × Session h
  get_api_keys = fetch_api "/keys" no_options

  unfoldable pub create_api_key : String → String → Session h → Outcome Json × Session h
  create_api_key name scope =
      fetch_api "/keys" (send_json "POST" (("name", str name) ∷ ("scope", str scope) ∷ []))

  unfoldable pub delete_api_key : Number → Session h → Outcome Json × Session h
  delete_api_key id = fetch_api "/keys" (send_json "DELETE" (("id", number id) ∷ []))

  unfoldable pub logout : Session h → Session h
  logout s = record s { browser = go_to "/login" (remove_item "token" s.browser) }

  unfoldable pub is_logged_in : Session h → Bool
  unfolding stored_token
  is_logged_in s = elim (stored_token s.browser) [ none ↦ false | some _ ↦ true ]

  unfoldable pub change_password : String → String → Session h → Outcome Json × Session h
  change_password old_password new_password = fetch_api "/password" (
      send_json "PUT"
        (("old_password", str old_password) ∷ ("new_password", str new_password) ∷ []))

  -- Without the token and without `fetchAPI`: the catalog is public.
  unfoldable pub receive_catalog : Reply Json → Session h → Outcome Json × Session h
  unfolding body_of
  receive_catalog (rejected m) s = (err m, s)
  receive_catalog (response status p) s =
      if is_ok_status status then (body_of p, s) else (err "Failed to load model catalog", s)

  unfoldable pub get_model_catalog : Session h → Outcome Json × Session h
  get_model_catalog s =
      let (reply, s') =
        fetch h
          (record {
            url = api_base <+> "/models/catalog";
            method = none;
            headers = [];
            body = none;
          })
          s in
      receive_catalog reply s'
