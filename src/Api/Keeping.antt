-- ===== src/Api/Keeping.antt =====
-- The token that web/src/lib/api.ts and web/src/lib/admin-api.ts keep and send, while a server honours it.
use uni_llm.Prelude.{
  Bool, Option, String, [], ap, arith, false, if◌then◌else◌, inr, lookup, none, refl, some, spread,
  sym, true, ◌<+>◌, ◌∙◌, ◌≡◌, ◌⊎◌,
}
use uni_llm.Net.{Browser, Host, Options, Reply, Request, Session, fetch, ok, rejected, response}
use uni_llm.Api.{api_base, fetch_api, headers_of, is_logged_in, request_of, sign_off, stored_token}
use uni_llm.Api.Automaton.{token-sign_off}
use uni_llm.Api.Token.{answer, fetch_api_effect, fetched, is_unauthorized, outcome_of, receive_lem}
use uni_llm.Together.{Five}

-- The request bears the token.
abbrev pub Bears : {Number : Type 0} → String → Request Number → Type 0
Bears token r = lookup "Authorization" r.headers ≡ some ("Bearer " <+> token)

-- The request bears no token.
abbrev pub IsBare : {Number : Type 0} → Request Number → Type 0
IsBare r = lookup "Authorization" r.headers ≡ none

pub request_of-IsBare :
    {Number : Type 0} (base path : String) (o : Options Number) (b : Browser)
    → stored_token b ≡ none
    → o.headers ≡ []
    → IsBare (request_of base path o b)
unfolding request_of headers_of spread lookup
request_of-IsBare base path o b e f = rw (e, f) refl

-- The browser keeps this token or none.
abbrev pub Keeps : String → Browser → Type 0
Keeps token b = (stored_token b ≡ some token) ⊎ (stored_token b ≡ none)

abbrev pub off_if : Bool → Browser → Browser
off_if u b = if u then sign_off b else b

pub off_if-Keeps :
    (token : String) (u : Bool) (b : Browser) → Keeps token b → Keeps token (off_if u b)
off_if-Keeps token true b k = inr (token-sign_off b)
off_if-Keeps token false b k = k

-- The answers of five calls, taken one after the other.
abbrev pub off_five : {Json : Type 0} → Five (Reply Json) → Browser → Browser
off_five r b = off_if (is_unauthorized r.fifth) (
    off_if (is_unauthorized r.fourth) (
      off_if (is_unauthorized r.third)
        (off_if (is_unauthorized r.second) (off_if (is_unauthorized r.first) b))))

pub off_five-Keeps :
    {Json : Type 0} (token : String) (r : Five (Reply Json)) (b : Browser)
    → Keeps token b
    → Keeps token (off_five r b)
off_five-Keeps {Json} token r b k =
    let expired : Reply Json → Bool = is_unauthorized in
    let b1 = off_if (expired r.first) b in
    let b2 = off_if (expired r.second) b1 in
    let b3 = off_if (expired r.third) b2 in
    let b4 = off_if (expired r.fourth) b3 in
    let k1 : Keeps token b1 = off_if-Keeps token (expired r.first) b k in
    let k2 : Keeps token b2 = off_if-Keeps token (expired r.second) b1 k1 in
    let k3 : Keeps token b3 = off_if-Keeps token (expired r.third) b2 k2 in
    let k4 : Keeps token b4 = off_if-Keeps token (expired r.fourth) b3 k3 in
    off_if-Keeps token (expired r.fifth) b4 k4

pub stored-is_logged_in :
    (h : Host) (s : Session h) (token : String)
    → stored_token s.browser ≡ some token
    → is_logged_in h s ≡ true
unfolding is_logged_in stored_token
stored-is_logged_in h s token e =
    ap (λ (o : Option String). elim o as (λ x. Bool) [ none ↦ false | some _ ↦ true ]) e

module _ (h : Host) where
  pub fetch_api-outcome :
      (path : String) (o : Options h.Number) (s : Session h)
      → (fetch_api h path o s).0 ≡ outcome_of h (answer h api_base path o s)
  unfolding fetch_api fetch
  fetch_api-outcome path o s =
      ap (λ q. q.0)
        (receive_lem h (answer h api_base path o s)
          (fetched h (request_of api_base path o s.browser) s))

  granted-signed_in :
      (r : Reply h.Json) (j : h.Json) → outcome_of h r ≡ ok j → is_unauthorized r ≡ false
  granted-signed_in (rejected m) j e = refl
  granted-signed_in (response status p) j e = ground arith

  -- A call that succeeds leaves the browser alone.
  pub fetch_api-browser :
      (path : String) (o : Options h.Number) (s : Session h) (j : h.Json)
      → (fetch_api h path o s).0 ≡ ok j
      → (fetch_api h path o s).1.browser ≡ s.browser
  fetch_api-browser path o s j e =
      let passed =
        granted-signed_in (answer h api_base path o s) j (sym (fetch_api-outcome path o s) ∙ e) in
      rw (fetch_api_effect h path o s, passed) refl
