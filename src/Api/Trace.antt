-- ===== src/Api/Trace.antt =====
-- Sequences of calls of web/src/lib/api.ts, and the requests that they send.
use mathlib.Core.List.{append_assoc, append-nil}
use uni_llm.Api
use uni_llm.Prelude.{
  All, All-append, Bool, List, String, [], arith, false, if◌then◌else◌, is_empty, lookup,
  lookup-put_self, lookup-remove_self, none, refl, some, spread, sym, true, ◌++◌, ◌<+>◌, ◌∷◌, ◌≡◌,
}
use uni_llm.Net.{
  Browser, Host, Options, Outcome, Reply, Request, Session, err, fetch, ok, rejected, response,
}
use uni_llm.Api.{
  api_base, fetch_api, headers_of, keep_token, receive_catalog, request_of, sign_off, stored_token,
}
use uni_llm.Api.Token.{answer, fetch_api_effect, is_unauthorized, request_of-authorized}

-- One call of an exported function of the file.
pub data Call (Number : Type 0) : Type 0 where
  login : String → String → Call Number
  register : String → String → String → Call Number
  get_me : Call Number
  get_usage_summary : Call Number
  get_usage_by_model : Call Number
  get_usage_daily : Call Number
  get_usage_recent : Call Number
  get_api_keys : Call Number
  create_api_key : String → String → Call Number
  delete_api_key : Number → Call Number
  change_password : String → String → Call Number
  get_model_catalog : Call Number
  logout : Call Number

-- The calls that store a token.
abbrev pub signs_in : {Number : Type 0} → Call Number → Bool
signs_in (Call.login _ _) = true
signs_in (Call.register _ _ _) = true
signs_in _ = false

abbrev pub IsAnonymous : {Number : Type 0} → Request Number → Type 0
IsAnonymous r = lookup "Authorization" r.headers ≡ none

abbrev catalog_request : {Number : Type 0} → Request Number
catalog_request = record {
  url = "/api" <+> "/models/catalog";
  method = none;
  headers = [];
  body = none;
}

request_of-IsAnonymous :
    {Number : Type 0} (base path : String) (o : Options Number) (b : Browser)
    → o.headers ≡ []
    → stored_token b ≡ none
    → IsAnonymous (request_of base path o b)
unfolding request_of spread lookup
request_of-IsAnonymous base path o b plain e = rw (plain, e, headers_of)

module _ (h : Host) where
  pub keep_token-stored :
      (m : Outcome h.Json × Session h) (j : h.Json) (t : String)
      → (Api.keep_token h m).0 ≡ ok j
      → h.token_of j ≡ t
      → is_empty t ≡ false
      → stored_token (Api.keep_token h m).1.browser ≡ some t
  unfolding Api.keep_token stored_token
  keep_token-stored (err m, s) j t e f n = cc
  keep_token-stored (ok k, s) j t e f n =
      ground (arith, lookup-put_self "token" (h.token_of k) s.browser.storage)

  unfoldable pub perform : Call h.Number → Session h → Session h
  perform (Call.login e p) s = (Api.login h e p s).1
  perform (Call.register e p n) s = (Api.register h e p n s).1
  perform Call.get_me s = (Api.get_me h s).1
  perform Call.get_usage_summary s = (Api.get_usage_summary h s).1
  perform Call.get_usage_by_model s = (Api.get_usage_by_model h s).1
  perform Call.get_usage_daily s = (Api.get_usage_daily h s).1
  perform Call.get_usage_recent s = (Api.get_usage_recent h s).1
  perform Call.get_api_keys s = (Api.get_api_keys h s).1
  perform (Call.create_api_key n c) s = (Api.create_api_key h n c s).1
  perform (Call.delete_api_key i) s = (Api.delete_api_key h i s).1
  perform (Call.change_password o n) s = (Api.change_password h o n s).1
  perform Call.get_model_catalog s = (Api.get_model_catalog h s).1
  perform Call.logout s = Api.logout h s

  unfoldable pub perform_all : List (Call h.Number) → Session h → Session h
  unfolding perform
  perform_all [] s = s
  perform_all (c ∷ cs) s = perform_all cs (perform c s)

  -- The session `t` comes from `s` by anonymous requests alone, and holds no token.
  pub record StaysOut (s t : Session h) : Type 0 where
    pub requests : List (Request h.Number)
    pub sent : t.sent ≡ s.sent ++ requests
    pub anonymous : All IsAnonymous requests
    pub no_token : stored_token t.browser ≡ none

  StaysOut-refl : (s : Session h) → stored_token s.browser ≡ none → StaysOut s s
  StaysOut-refl s e = record {
    requests = [];
    sent = sym (append-nil _);
    anonymous = tt;
    no_token = e;
  }

  StaysOut-trans : (s t u : Session h) → StaysOut s t → StaysOut t u → StaysOut s u
  StaysOut-trans s t u p q = record {
    requests = p.requests ++ q.requests;
    sent = rw (q.sent, p.sent) (append_assoc s.sent p.requests q.requests);
    anonymous = All-append IsAnonymous p.requests q.requests p.anonymous q.anonymous;
    no_token = q.no_token;
  }

  sign_off-no_token : (b : Browser) → stored_token b ≡ none → stored_token (sign_off b) ≡ none
  unfolding stored_token sign_off
  sign_off-no_token b e = ground (arith, lookup-remove_self "token" b.storage)

  fetch_api-StaysOut :
      (path : String) (o : Options h.Number) (s : Session h)
      → o.headers ≡ []
      → stored_token s.browser ≡ none
      → StaysOut s (fetch_api h path o s).1
  fetch_api-StaysOut path o s plain e = rw fetch_api_effect (record {
    requests = request_of api_base path o s.browser ∷ [];
    sent = refl;
    anonymous = (request_of-IsAnonymous api_base path o s.browser plain e, tt);
    no_token = off_if (is_unauthorized (answer h api_base path o s));
  })
    where
      off_if : (b : Bool) → stored_token (if b then sign_off s.browser else s.browser) ≡ none
      off_if true = sign_off-no_token s.browser e
      off_if false = e

  pub logout-StaysOut : (s : Session h) → StaysOut s (Api.logout h s)
  unfolding Api.logout stored_token
  logout-StaysOut s = record {
    requests = [];
    sent = sym (append-nil _);
    anonymous = tt;
    no_token = rw lookup-remove_self (ground arith);
  }

  pub receive_catalog-same : (r : Reply h.Json) (s : Session h) → (Api.receive_catalog h r s).1 ≡ s
  unfolding Api.receive_catalog
  receive_catalog-same (rejected m) s = refl
  receive_catalog-same (response status p) s = ground arith

  catalog-StaysOut :
      (s : Session h) → stored_token s.browser ≡ none → StaysOut s (Api.get_model_catalog h s).1
  unfolding Api.get_model_catalog fetch
  catalog-StaysOut s e = rw receive_catalog-same (record {
    requests = catalog_request ∷ [];
    sent = refl;
    anonymous = (unfold lookup in refl, tt);
    no_token = e;
  })

  perform-StaysOut :
      (c : Call h.Number) (s : Session h)
      → signs_in c ≡ false
      → stored_token s.browser ≡ none
      → StaysOut s (perform c s)
  unfolding perform Api.get_me Api.get_usage_summary Api.get_usage_by_model Api.get_usage_daily
      Api.get_usage_recent Api.get_api_keys Api.create_api_key Api.delete_api_key
      Api.change_password
  perform-StaysOut (Call.login u p) s q e = cc
  perform-StaysOut (Call.register u p n) s q e = cc
  perform-StaysOut Call.get_model_catalog s q e = catalog-StaysOut s e
  perform-StaysOut Call.logout s q e = logout-StaysOut s
  perform-StaysOut _ s q e = fetch_api-StaysOut _ _ s refl e

  -- From a session without a token, calls other than `login` and `register`, in any number and order
  -- and whatever the server answers, store no token and send no Authorization header.
  pub perform_all-StaysOut :
      (cs : List (Call h.Number)) (s : Session h)
      → All (λ c. signs_in c ≡ false) cs
      → stored_token s.browser ≡ none
      → StaysOut s (perform_all cs s)
  unfolding perform_all
  perform_all-StaysOut [] s q e = StaysOut-refl s e
  perform_all-StaysOut (c ∷ cs) s q e =
      let first = perform-StaysOut c s q.0 e in
      StaysOut-trans s (perform c s) (perform_all cs (perform c s)) first
        (perform_all-StaysOut cs (perform c s) q.1 first.no_token)

  -- In a browser, a `login` that returns stores the token of the answer, and unless that is empty the
  -- next request of `fetchAPI`, whatever it is, carries it in its Authorization header.
  pub login_then_authorized :
      (email password path : String) (o : Options h.Number) (s : Session h) (j : h.Json)
      (t : String)
      → (Api.login h email password s).0 ≡ ok j
      → h.token_of j ≡ t
      → is_empty t ≡ false
      → (stored_token (Api.login h email password s).1.browser ≡ some t)
        × (lookup "Authorization"
              (request_of api_base path o (Api.login h email password s).1.browser).headers
            ≡ some ("Bearer " <+> t))
  unfolding Api.login
  login_then_authorized email password path o s j t e f n =
      let kept = keep_token-stored _ j t e f n in
      (kept, request_of-authorized api_base path o _ t kept)
