-- ===== src/Tests/Journeys.antt =====
-- The properties about several parts at once, on a scripted server.
use uni_llm.Api
use uni_llm.Prelude.{All, List, [], refl, true, ◌++◌, ◌∷◌, ◌≡◌, ℕ}
use uni_llm.Net.{Session, parsed, response}
use uni_llm.I18n.Catalogs.{en}
use uni_llm.Api.Trace.{Call}
use uni_llm.AdminApi.Calls.{AdminCall}
use uni_llm.Login.{LoginPage, attempt, first_login, handle_submit}
use uni_llm.Dashboard.{DashboardPage, first_dashboard, open_dashboard}
use uni_llm.Dashboard.Outcomes.{reload_requests}
use uni_llm.Admin.{AdminPage, AdminReaders, open_admin}
use uni_llm.Journeys.Routes.{
  Sends, Use, by_admin, by_chat, by_status, by_user, use_all, use_all-Sends,
}
use uni_llm.Journeys.Access.{Bears, IsOut, open_dashboard-expired, submitted_then_authorized}
use uni_llm.Tests.Fixtures.{expired, fine, member, readers, scripted, session_of, visitor}
use uni_llm.Prelude.{String}

-- Only the last call, whose failure the page ignores, meets the expired token.
abbrev expiring : Session scripted
expiring = session_of member (fine "s" ∷ fine "m" ∷ fine "k" ∷ fine "d" ∷ expired ∷ [])

open_dashboard-expired_example :
    IsOut scripted (open_dashboard scripted readers en first_dashboard expiring).1.browser
    × ((q : DashboardPage ℕ)
        → (open_dashboard scripted readers en q
            (open_dashboard scripted readers en first_dashboard expiring).1).1.sent
          ≡ (open_dashboard scripted readers en first_dashboard expiring).1.sent)
    × ((reader : AdminReaders scripted) (parse : String → ℕ) (q : AdminPage ℕ)
        → (open_admin scripted reader parse q
            (open_dashboard scripted readers en first_dashboard expiring).1).1.sent
          ≡ (open_dashboard scripted readers en first_dashboard expiring).1.sent)
unfolding Api.is_logged_in uni_llm.Together.start_five uni_llm.Net.fetch uni_llm.Prelude.lookup
open_dashboard-expired_example =
    open_dashboard-expired scripted readers en first_dashboard expiring refl refl refl

abbrev form : LoginPage
form = record first_login { is_register = true; email = "a@b.c"; password = "secret"; name = "A" }

abbrev entering : Session scripted
entering = session_of visitor (fine "t9" ∷ fine "s" ∷ [])

submitted_then_authorized_example :
    ((open_dashboard scripted readers en first_dashboard
        (handle_submit scripted form entering).1).1.sent
      ≡ (handle_submit scripted form entering).1.sent
        ++ reload_requests scripted readers en (handle_submit scripted form entering).1.browser)
    × All
        (Bears scripted readers en "t9")
        (reload_requests scripted readers en (handle_submit scripted form entering).1.browser)
unfolding attempt Api.register Api.fetch_api Api.keep_token Api.receive uni_llm.Net.fetch
submitted_then_authorized_example =
    submitted_then_authorized scripted readers en form first_dashboard entering "t9" "t9" refl refl
      refl

abbrev visit : List (Use scripted)
visit =
    by_status
    ∷ by_chat "sk-1"
    ∷ by_user (Call.login "a@b.c" "secret")
    ∷ by_admin AdminCall.get_users
    ∷ by_user (Call.delete_api_key 3)
    ∷ []

use_all-Sends_example : Sends scripted entering (use_all scripted visit entering)
use_all-Sends_example = use_all-Sends scripted visit entering
