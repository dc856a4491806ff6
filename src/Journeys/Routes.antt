-- ===== src/Journeys/Routes.antt =====
-- The requests of web/src/lib/api.ts and web/src/lib/admin-api.ts on their way through web/src/middleware.ts.
use mathlib.Core.List.{append_assoc, append-nil}
use uni_llm.Api
use uni_llm.AdminApi
use uni_llm.AdminApi.{admin_base, admin_fetch}
use uni_llm.AdminApi.Calls.{AdminCall, admin_perform}
use uni_llm.Admin.Switches.{sent-admin_fetch}
use uni_llm.Playground.Lists.{models_request}
use uni_llm.Status.{status_request}
use uni_llm.Prelude.{
  inl, inr, none, ◌⊎◌, All, All-append, List, String, [], arith, ap, refl, sym, true, ◌++◌, ◌<+>◌,
  ◌∙◌, ◌∷◌, ◌≡◌,
}
use uni_llm.Net.{Host, Options, Outcome, Request, Session, err, fetch, ok}
use uni_llm.Api.{api_base, fetch_api, keep_token, receive_catalog, request_of}
use uni_llm.Api.Token.{fetch_api_effect}
use uni_llm.Api.Trace.{Call, perform, receive_catalog-same}
use uni_llm.Middleware.{backend_path, is_matched, is_proxied}

-- The middleware runs for the path, and asks the backend for `target`.
pub record IsForwarded (path target : String) : Type 0 where
  pub matched : is_matched path ≡ true
  pub proxied : is_proxied path ≡ true
  pub kept : backend_path path ≡ target

abbrev pub Arrives : {Number : Type 0} → Request Number → Type 0
Arrives r = IsForwarded r.url r.url ⊎ IsForwarded r.url "/status"

module _ (h : Host) where
  -- The session `t` comes from `s` by requests that the middleware forwards.
  pub record Sends (s t : Session h) : Type 0 where
    pub requests : List (Request h.Number)
    pub sent : t.sent ≡ s.sent ++ requests
    pub forwarded : All Arrives requests

  fetch_api-Sends :
      (path : String) (o : Options h.Number) (s : Session h)
      → IsForwarded (api_base <+> path) (api_base <+> path)
      → Sends s (fetch_api h path o s).1
  unfolding request_of
  fetch_api-Sends path o s f = record {
    requests = request_of api_base path o s.browser ∷ [];
    sent = ap (λ q. q.sent) (fetch_api_effect h path o s);
    forwarded = (inl f, tt);
  }

  sent-keep_token : (m : Outcome h.Json × Session h) → (keep_token h m).1.sent ≡ m.1.sent
  unfolding keep_token
  sent-keep_token (err m, s) = refl
  sent-keep_token (ok j, s) = ground arith

  keep_token-Sends :
      (s : Session h) (m : Outcome h.Json × Session h) → Sends s m.1 → Sends s (keep_token h m).1
  keep_token-Sends s m k = record {
    requests = k.requests;
    sent = sent-keep_token m ∙ k.sent;
    forwarded = k.forwarded;
  }

  perform-Sends : (c : Call h.Number) (s : Session h) → Sends s (perform h c s)
  unfolding perform is_matched is_proxied backend_path Api.login Api.register Api.get_me
      Api.get_usage_summary Api.get_usage_by_model Api.get_usage_daily Api.get_usage_recent
      Api.get_api_keys Api.create_api_key Api.delete_api_key Api.change_password Api.logout
      Api.get_model_catalog fetch
  perform-Sends (Call.login e p) s =
      keep_token-Sends s _
        (fetch_api-Sends "/auth/login" _ s (record { matched = refl; proxied = refl; kept = refl }))
  perform-Sends (Call.register e p n) s = keep_token-Sends s _ (
      fetch_api-Sends "/auth/register" _ s (record { matched = refl; proxied = refl; kept = refl }))
  perform-Sends Call.get_model_catalog s = record {
    requests =
        (record { url = api_base <+> "/models/catalog"; method = none; headers = []; body = none })
        ∷ [];
    sent = ap (λ q. q.sent) (receive_catalog-same h _ _);
    forwarded = (inl (record { matched = refl; proxied = refl; kept = refl }), tt);
  }
  perform-Sends Call.logout s = record { requests = []; sent = sym (append-nil _); forwarded = tt }
  perform-Sends _ s = fetch_api-Sends _ _ s (record { matched = refl; proxied = refl; kept = refl })

  admin_fetch-Sends :
      (path : String) (o : Options h.Number) (s : Session h)
      → IsForwarded (admin_base <+> path) (admin_base <+> path)
      → Sends s (admin_fetch h path o s).1
  unfolding request_of
  admin_fetch-Sends path o s f = record {
    requests = request_of admin_base path o s.browser ∷ [];
    sent = sent-admin_fetch h path o s;
    forwarded = (inl f, tt);
  }

  admin_perform-Sends : (c : AdminCall h.Number) (s : Session h) → Sends s (admin_perform h c s)
  unfolding admin_perform is_matched is_proxied backend_path AdminApi.get_global_stats
      AdminApi.get_users AdminApi.update_balance AdminApi.get_providers AdminApi.create_provider
      AdminApi.toggle_provider AdminApi.get_models AdminApi.create_model AdminApi.update_model
      AdminApi.get_provider_keys AdminApi.add_provider_key
  admin_perform-Sends AdminCall.get_users s =
      admin_fetch-Sends _ _ s (record { matched = refl; proxied = refl; kept = refl })
  admin_perform-Sends _ s =
      admin_fetch-Sends _ _ s (record { matched = refl; proxied = refl; kept = refl })

  -- What the pages ask for: a call of one of the two clients, a look at the state of the service, or the
  -- models of a key.
  pub data Use : Type 0 where
    by_user : Call h.Number → Use
    by_admin : AdminCall h.Number → Use
    by_status : Use
    by_chat : (key : String) → Use

  unfoldable pub use_one : Use → Session h → Session h
  use_one (by_user c) s = perform h c s
  use_one (by_admin c) s = admin_perform h c s
  use_one by_status s = (fetch h status_request s).1
  use_one (by_chat key) s = (fetch h (models_request key) s).1

  unfoldable pub use_all : List Use → Session h → Session h
  unfolding use_one
  use_all [] s = s
  use_all (u ∷ us) s = use_all us (use_one u s)

  Sends-trans : (s t u : Session h) → Sends s t → Sends t u → Sends s u
  Sends-trans s t u p q = record {
    requests = p.requests ++ q.requests;
    sent = rw (q.sent, p.sent) (append_assoc s.sent p.requests q.requests);
    forwarded = All-append Arrives p.requests q.requests p.forwarded q.forwarded;
  }

  use_one-Sends : (u : Use) (s : Session h) → Sends s (use_one u s)
  unfolding use_one fetch is_matched is_proxied backend_path
  use_one-Sends (by_user c) s = perform-Sends c s
  use_one-Sends (by_admin c) s = admin_perform-Sends c s
  use_one-Sends by_status s = record {
    requests = status_request ∷ [];
    sent = refl;
    forwarded = (inr (record { matched = refl; proxied = refl; kept = refl }), tt);
  }
  use_one-Sends (by_chat key) s = record {
    requests = models_request key ∷ [];
    sent = refl;
    forwarded = (inl (record { matched = refl; proxied = refl; kept = refl }), tt);
  }

  -- Every request that the two clients, the status page and the list of models of the playground send, in any
  -- number and order and whatever the server answers, passes the middleware to the backend: under the path
  -- that the console has asked for, or as `/status`.
  pub use_all-Sends : (us : List Use) (s : Session h) → Sends s (use_all us s)
  unfolding use_all
  use_all-Sends [] s = record { requests = []; sent = sym (append-nil _); forwarded = tt }
  use_all-Sends (u ∷ us) s =
      Sends-trans s (use_one u s) (use_all us (use_one u s)) (use_one-Sends u s)
        (use_all-Sends us (use_one u s))
