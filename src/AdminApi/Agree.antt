-- ===== src/AdminApi/Agree.antt =====
-- The two clients of web/src/lib/ treat an answer alike, but for status 403.
use text.Mathlib.TextLemmas.{append_assoc}
use uni_llm.Prelude.{Bool, String, arith, false, if◌then◌else◌, refl, ◌<+>◌, ◌==◌, ◌≡◌}
use uni_llm.Net.{Browser, Host, Options, Reply, Session, err, fetch, rejected, response}
use uni_llm.Api.{api_base, fetch_api, receive, request_of}
use uni_llm.Api.Token.{answer, fetched}
use uni_llm.AdminApi.{admin_base, admin_fetch, admin_receive}

abbrev pub is_forbidden : {Json : Type 0} → Reply Json → Bool
is_forbidden (rejected _) = false
is_forbidden (response status _) = status == 403

pub admin_receive-receive :
    (h : Host) (r : Reply h.Json) (s : Session h)
    → admin_receive h r s
      ≡ (if is_forbidden r then (err "Admin access required", (receive h r s).1) else receive h r s)
unfolding admin_receive receive
admin_receive-receive h (rejected m) s = refl
admin_receive-receive h (response status p) s = ground arith

request_of-admin :
    {Number : Type 0} (path : String) (o : Options Number) (b : Browser)
    → request_of admin_base path o b ≡ request_of api_base ("/admin" <+> path) o b
unfolding request_of
request_of-admin path o b = rw (append_assoc "/api" "/admin" path)

-- `adminFetch(path)` is `fetchAPI("/admin" + path)`: the same request, the same change of the session
-- and the same result, except that an answer of status 403 throws "Admin access required".
pub admin_fetch-fetch_api :
    (h : Host) (path : String) (o : Options h.Number) (s : Session h)
    → admin_fetch h path o s ≡ (
        if is_forbidden (answer h admin_base path o s)
        then (err "Admin access required", (fetch_api h ("/admin" <+> path) o s).1)
        else fetch_api h ("/admin" <+> path) o s)
unfolding admin_fetch fetch_api fetch
admin_fetch-fetch_api h path o s = rw (← request_of-admin path o s.browser) (
    admin_receive-receive h (answer h admin_base path o s)
      (fetched h (request_of admin_base path o s.browser) s))
