-- ===== src/Api/Automaton.antt =====
-- The stored token as a small automaton, which every sequence of calls of web/src/lib/api.ts follows.
use uni_llm.Api
use uni_llm.Prelude.{
  Bool, Bool-cases, List, Option, String, [], ap, false, if◌then◌else◌, inl, inr, is_empty,
  lookup-put_self, lookup-remove_self, none, refl, some, true, ◌∷◌, ◌≡◌, ◌⊎◌,
}
use uni_llm.Net.{Browser, Host, Options, Outcome, Session, err, fetch, ok, set_item}
use uni_llm.Api.{api_base, fetch_api, sign_off, stored_token}
use uni_llm.Api.Trace.{Call, logout-StaysOut, perform, perform_all, receive_catalog-same, signs_in}
use uni_llm.Api.Token.{answer, fetch_api_effect, is_unauthorized}

-- The catalog is asked for without the token.
abbrev pub is_public : {Number : Type 0} → Call Number → Bool
is_public Call.get_model_catalog = true
is_public _ = false

-- What a call may do to the token: keep it; drop it, unless the call is public; or, if it signs in, put
-- another one in its place.
pub data Follows {Number : Type 0} (c : Call Number) (before after : Option String) : Type 0 where
  keeps : after ≡ before → Follows c before after
  drops : is_public c ≡ false → after ≡ none → Follows c before after
  enters : (t : String) → signs_in c ≡ true → after ≡ some t → Follows c before after

-- A sequence of calls, each of which follows the automaton.
pub data FollowsAll {Number : Type 0}
    : List (Call Number) → Option String → Option String → Type 0 where
  done : {o : Option String} → FollowsAll [] o o
  next :
      {c : Call Number} {cs : List (Call Number)} {o p q : Option String}
      → Follows c o p
      → FollowsAll cs p q
      → FollowsAll (c ∷ cs) o q

pub token-sign_off : (b : Browser) → stored_token (sign_off b) ≡ none
unfolding stored_token sign_off
token-sign_off b = elim (Bool-cases b.has_window) [
  | inl e ↦ rw e (rw lookup-remove_self refl)
  | inr e ↦ rw e
]

-- The token after an answer, in the two cases that there are.
token-fetch_api :
    (h : Host) (path : String) (o : Options h.Number) (s : Session h)
    → (stored_token (fetch_api h path o s).1.browser ≡ stored_token s.browser)
      ⊎ (stored_token (fetch_api h path o s).1.browser ≡ none)
token-fetch_api h path o s = elim (Bool-cases (is_unauthorized (answer h api_base path o s))) [
  | inl e ↦ inr (rw (fetch_api_effect, e) (token-sign_off s.browser))
  | inr e ↦ inl (rw (fetch_api_effect, e))
]

fetch_api-Follows :
    (h : Host) (c : Call h.Number) (path : String) (o : Options h.Number) (s : Session h)
    → is_public c ≡ false
    → Follows c (stored_token s.browser) (stored_token (fetch_api h path o s).1.browser)
fetch_api-Follows h c path o s private_call = elim (token-fetch_api h path o s) [
  | inl e ↦ keeps e
  | inr e ↦ drops private_call e
]

token-set :
    (b : Browser) (t : String)
    → b.has_window ≡ true
    → stored_token (set_item "token" t b) ≡ (if is_empty t then none else some t)
unfolding stored_token
token-set b t w = rw w (rw lookup-put_self refl)

keep_token-kept :
    (h : Host) (j : h.Json) (s : Session h)
    → s.browser.has_window ≡ true
    → (Api.keep_token h (ok j, s)).1.browser ≡ set_item "token" (h.token_of j) s.browser
unfolding Api.keep_token
keep_token-kept h j s e = simp e

keep_token-unkept :
    (h : Host) (j : h.Json) (s : Session h)
    → s.browser.has_window ≡ false
    → (Api.keep_token h (ok j, s)).1 ≡ s
unfolding Api.keep_token
keep_token-unkept h j s e = simp e

keep_token-Follows :
    (h : Host) (c : Call h.Number) (before : Option String) (r : Outcome h.Json × Session h)
    → signs_in c ≡ true
    → is_public c ≡ false
    → Follows c before (stored_token r.1.browser)
    → Follows c before (stored_token (Api.keep_token h r).1.browser)
keep_token-Follows h c before (err m, s) sign private_call f = unfold Api.keep_token in f
keep_token-Follows h c before (ok j, s) sign private_call f =
    elim (Bool-cases s.browser.has_window) [
      | inr e ↦ rw (keep_token-unkept h j s e) f
      | inl e ↦ rw (keep_token-kept h j s e) (elim (Bool-cases (is_empty (h.token_of j))) [
        | inl blank ↦ drops private_call (rw (token-set s.browser (h.token_of j) e, blank))
        | inr full ↦ enters (h.token_of j) sign (rw (token-set s.browser (h.token_of j) e, full))
      ])
    ]

catalog-browser : (h : Host) (s : Session h) → (Api.get_model_catalog h s).1.browser ≡ s.browser
unfolding Api.get_model_catalog fetch
catalog-browser h s = rw (receive_catalog-same h)

perform-Follows :
    (h : Host) (c : Call h.Number) (s : Session h)
    → Follows c (stored_token s.browser) (stored_token (perform h c s).browser)
unfolding perform Api.login Api.register Api.get_me Api.get_usage_summary Api.get_usage_by_model
    Api.get_usage_daily Api.get_usage_recent Api.get_api_keys Api.create_api_key Api.delete_api_key
    Api.change_password
perform-Follows h (Call.login u p) s =
    keep_token-Follows h _ _ _ refl refl (fetch_api-Follows h _ _ _ s refl)
perform-Follows h (Call.register u p n) s =
    keep_token-Follows h _ _ _ refl refl (fetch_api-Follows h _ _ _ s refl)
perform-Follows h Call.get_model_catalog s = keeps (ap stored_token (catalog-browser h s))
perform-Follows h Call.logout s = drops refl (logout-StaysOut h s).no_token
perform-Follows h c s = fetch_api-Follows h c _ _ s refl

-- Whatever calls are made, in any number and order, and whatever the server answers, the stored token
-- goes through a run of the automaton of `Follows`: only `login` and `register` put a token there, each
-- other call keeps the token or drops it, and the call for the catalog always keeps it.
pub perform_all-FollowsAll :
    (h : Host) (cs : List (Call h.Number)) (s : Session h)
    → FollowsAll cs (stored_token s.browser) (stored_token (perform_all h cs s).browser)
unfolding perform_all
perform_all-FollowsAll h [] s = done
perform_all-FollowsAll h (c ∷ cs) s =
    next (perform-Follows h c s) (perform_all-FollowsAll h cs (perform h c s))
