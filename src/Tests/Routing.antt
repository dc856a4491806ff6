-- ===== src/Tests/Routing.antt =====
-- The properties of web/src/middleware.ts and of the locales, on concrete requests and browsers.
use uni_llm.Prelude.{
  List, String, [], if◌then◌else◌, lookup, put, refl, some, ◌<+>◌, ◌===◌, ◌∷◌, ◌≡◌,
}
use uni_llm.Middleware.{Incoming, backend_path, is_proxied, middleware, rewrite}
use uni_llm.Middleware.Paths.{IsBackendPath, middleware_forwards}
use uni_llm.I18n.{choose_all, en_locale, mounted_provider, zh_cn_locale}
use uni_llm.I18n.Persistence.{choose_then_reload}
use uni_llm.Tests.Fixtures.{visitor}

abbrev status_request : Incoming
status_request = record {
  pathname = "/backend/status";
  search = "?full=1";
  headers = ("host", "site") ∷ ("accept", "*/*") ∷ [];
}

abbrev join : String → String → String
join path base = base <+> path

abbrev forwarded_headers : List (String × String)
forwarded_headers = ("host", "api:3000") ∷ ("accept", "*/*") ∷ []

is_forwarded :
    middleware join (λ u. "api:3000") "http://api:3000" status_request
    ≡ rewrite "http://api:3000/status?full=1" forwarded_headers
unfolding middleware is_proxied backend_path put
is_forwarded = refl

middleware_forwards_example :
    IsBackendPath (backend_path "/backend/status")
    × ("http://api:3000/status?full=1"
        ≡ join (backend_path "/backend/status" <+> "?full=1") "http://api:3000")
    × ((k : String)
        → lookup k forwarded_headers
          ≡ (if "host" === k then some "api:3000" else lookup k status_request.headers))
middleware_forwards_example =
    middleware_forwards join (λ u. "api:3000") "http://api:3000" status_request
      "http://api:3000/status?full=1" forwarded_headers is_forwarded

choose_then_reload_example :
    (mounted_provider
      (choose_all
        (zh_cn_locale ∷ en_locale ∷ zh_cn_locale ∷ [])
        (mounted_provider visitor "en")).browser
      "en").locale
    ≡ zh_cn_locale
choose_then_reload_example =
    choose_then_reload visitor "en" "en" (zh_cn_locale ∷ en_locale ∷ zh_cn_locale ∷ []) refl
