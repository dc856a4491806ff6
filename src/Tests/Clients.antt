-- ===== src/Tests/Clients.antt =====
-- The properties of the clients of web/src/lib/api.ts and admin-api.ts, on a scripted server.
use uni_llm.Prelude.{List, [], if◌then◌else◌, lookup, refl, true, ℕ, ◌<+>◌, ◌↔◌, ◌∷◌, ◌≡◌}
use uni_llm.Net.{Session, err, is_ok_status, ok, parsed, response}
use uni_llm.Api.{api_base, fetch_api, no_options, stored_token}
use uni_llm.Api.Token.{answer, fetch_api-ok_iff}
use uni_llm.Api.Trace.{Call, StaysOut, perform_all, perform_all-StaysOut}
use uni_llm.AdminApi.Agree.{admin_fetch-fetch_api, is_forbidden}
use uni_llm.Tests.Fixtures.{expired, fine, member, scripted, session_of, visitor}
use uni_llm.AdminApi.{admin_base, admin_fetch}
use uni_llm.Api.Automaton.{FollowsAll, perform_all-FollowsAll}

abbrev calls : List (Call ℕ)
calls = Call.get_me ∷ Call.logout ∷ Call.get_model_catalog ∷ []

abbrev outside : Session scripted
outside = session_of visitor (expired ∷ fine "{}" ∷ [])

perform_all-StaysOut_example : StaysOut scripted outside (perform_all scripted calls outside)
unfolding stored_token lookup
perform_all-StaysOut_example =
    perform_all-StaysOut scripted calls outside (refl, (refl, (refl, tt))) refl

abbrev inside : Session scripted
inside = session_of member (fine "me" ∷ [])

fetch_api-ok_iff_example : ((fetch_api scripted "/me" no_options inside).0 ≡ ok "me") ↔ (
    (status : ℕ) × (answer scripted api_base "/me" no_options inside
      ≡ response status (parsed "me"))
    × (is_ok_status status ≡ true))
fetch_api-ok_iff_example = fetch_api-ok_iff scripted "/me" no_options inside "me"

abbrev at_login : Session scripted
at_login = session_of visitor (fine "t9" ∷ [])

abbrev forbidden : Session scripted
forbidden = session_of member (response 403 (parsed "no") ∷ [])

admin_fetch-fetch_api_example : admin_fetch scripted "/models" no_options forbidden ≡ (
    if is_forbidden (answer scripted admin_base "/models" no_options forbidden)
    then (
      err "Admin access required",
      (fetch_api scripted ("/admin" <+> "/models") no_options forbidden).1,
    )
    else fetch_api scripted ("/admin" <+> "/models") no_options forbidden)
admin_fetch-fetch_api_example = admin_fetch-fetch_api scripted "/models" no_options forbidden

abbrev session_calls : List (Call ℕ)
session_calls =
    Call.get_me ∷ Call.login "a@b.c" "secret" ∷ Call.get_me ∷ Call.get_model_catalog ∷ []

abbrev stale : Session scripted
stale = session_of member (expired ∷ fine "t9" ∷ fine "me" ∷ expired ∷ [])

perform_all-FollowsAll_example :
    FollowsAll session_calls
      (stored_token stale.browser)
      (stored_token (perform_all scripted session_calls stale).browser)
perform_all-FollowsAll_example = perform_all-FollowsAll scripted session_calls stale
