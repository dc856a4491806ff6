-- ===== src/Api/Token.antt =====
-- What one call of `fetchAPI` of web/src/lib/api.ts does, for every answer of the server.
use uni_llm.Prelude.{
  Bool, String, [], arith, false, if◌then◌else◌, lookup, lookup-put_self, refl, some, true, ℕ, ◌++◌,
  ◌<+>◌, ◌==◌, ◌↔◌, ◌∷◌, ◌≡◌,
}
use uni_llm.Net.{
  Browser, Host, Options, Outcome, Reply, Request, Session, err, fetch, is_ok_status, ok, parsed,
  rejected, response, unparsable,
}
use uni_llm.Api.{
  api_base, body_of, failure, fetch_api, headers_of, receive, request_of, sign_off, stored_token,
}

-- The answer that a call gets.
abbrev pub answer : (h : Host) → String → String → Options h.Number → Session h → Reply h.Json
answer h base path o s = (h.respond s.server (request_of base path o s.browser)).1

-- The session once the response has come.
abbrev pub fetched : (h : Host) → Request h.Number → Session h → Session h
fetched h r s = (fetch h r s).1

abbrev pub is_unauthorized : {Json : Type 0} → Reply Json → Bool
is_unauthorized (rejected _) = false
is_unauthorized (response status _) = status == 401

module _ (h : Host) where
  receive_ok :
      (r : Reply h.Json) (s : Session h) (j : h.Json)
      → (receive h r s).0 ≡ ok j
      → (status : ℕ) × (r ≡ response status (parsed j)) × (is_ok_status status ≡ true)
  unfolding receive
  receive_ok (rejected m) s j e = cc
  receive_ok (response status (parsed k)) s j e = (status, ground arith, ground arith)
  receive_ok (response status (unparsable m)) s j e = ground arith

  ok_receive :
      (status : ℕ) (s : Session h) (j : h.Json)
      → is_ok_status status ≡ true
      → (receive h (response status (parsed j)) s).0 ≡ ok j
  unfolding receive
  ok_receive status s j e = ground arith

  -- `fetchAPI` returns a value exactly when the response has a status from 200 to 299 and its body is
  -- JSON, and then it returns that JSON. In all other cases it throws.
  pub fetch_api-ok_iff :
      (path : String) (o : Options h.Number) (s : Session h) (j : h.Json)
      → ((fetch_api h path o s).0 ≡ ok j) ↔ (
          (status : ℕ) × (answer h api_base path o s ≡ response status (parsed j))
          × (is_ok_status status ≡ true))
  unfolding fetch_api fetch
  fetch_api-ok_iff path o s j = (
    λ e. receive_ok _ _ j e,
    λ e. rw (e.1) (ok_receive e.0 (fetched h (request_of api_base path o s.browser) s) j e.2),
  )

  pub receive_browser :
      (r : Reply h.Json) (s : Session h)
      → (receive h r s).1
        ≡ record s { browser = if is_unauthorized r then sign_off s.browser else s.browser }
  unfolding receive
  receive_browser (rejected m) s = refl
  receive_browser (response status p) s = ground arith

  -- What a call gives for an answer: nothing but the answer counts.
  abbrev pub outcome_of : Reply h.Json → Outcome h.Json
  outcome_of (rejected m) = err m
  outcome_of (response status p) =
      if status == 401
      then err "Unauthorized"
      else if is_ok_status status
      then body_of h p
      else err (failure h status p)

  pub receive_lem :
      (r : Reply h.Json) (s : Session h)
      → receive h r s ≡ (
        outcome_of r,
        record s { browser = if is_unauthorized r then sign_off s.browser else s.browser },
      )
  unfolding receive
  receive_lem (rejected m) s = refl
  receive_lem (response status p) s = ground arith

  -- After any call of `fetchAPI` exactly one request more has been sent, the one built from the call's
  -- arguments and the browser, the server has answered it, and the browser is as before unless the
  -- answer has status 401, when it is signed off.
  pub fetch_api_effect :
      (path : String) (o : Options h.Number) (s : Session h)
      → (fetch_api h path o s).1 ≡ record {
        browser =
            if is_unauthorized (answer h api_base path o s) then sign_off s.browser else s.browser;
        server = (h.respond s.server (request_of api_base path o s.browser)).0;
        sent = s.sent ++ request_of api_base path o s.browser ∷ [];
      }
  unfolding fetch_api fetch
  fetch_api_effect path o s =
      receive_browser (answer h api_base path o s)
        (fetched h (request_of api_base path o s.browser) s)

-- A stored token, unless it is empty, goes with every request of `fetchAPI` as the Authorization
-- header, whatever headers the caller gives.
pub request_of-authorized :
    {Number : Type 0} (base path : String) (o : Options Number) (b : Browser) (t : String)
    → stored_token b ≡ some t
    → lookup "Authorization" (request_of base path o b).headers ≡ some ("Bearer " <+> t)
unfolding request_of
request_of-authorized base path o b t e = rw (e, headers_of) (lookup-put_self _ _ _)
