-- ===== src/Tests/Console.antt =====
-- The properties of the login, status, dashboard and administration pages, on a scripted server.
use uni_llm.Api
use uni_llm.Prelude.{String, [], none, refl, sym, ℕ, ◌++◌, ◌∙◌, ◌∷◌, ◌≡◌, ◌≢◌, ◌⊎◌}
use uni_llm.Net.{Session, err, ok, parsed, response, unparsable}
use uni_llm.Api.{fetch_api}
use uni_llm.I18n.Catalogs.{en}
use uni_llm.Status.{first_status, poll_all}
use uni_llm.Status.Polls.{Shows, last_good, poll_all-last_good}
use uni_llm.Admin.{first_admin, open_admin}
use uni_llm.Admin.Gate.{me_request, open_admin-closed}
use uni_llm.Tests.Fixtures.{
  admin_readers, parse_number, read_status, fine, member, scripted, session_of, visitor,
}

abbrev polled : Session scripted
polled = session_of visitor (fine "operational" ∷ response 502 (unparsable "<html>") ∷ [])

poll_all-last_good_example :
    Shows scripted ℕ en read_status
      (last_good scripted ℕ en read_status (30 ∷ 60 ∷ 90 ∷ []) polled none)
      (poll_all scripted ℕ en read_status (30 ∷ 60 ∷ 90 ∷ []) first_status polled).0
poll_all-last_good_example =
    poll_all-last_good scripted ℕ en read_status (30 ∷ 60 ∷ 90 ∷ []) first_status polled none
      (record { content = refl; updated = refl })

-- The third call fails.
abbrev failing : Session scripted
failing =
    session_of member
      (fine "s" ∷ fine "m" ∷ response 500 (parsed "down") ∷ fine "d" ∷ fine "l" ∷ [])

abbrev as_user : Session scripted
as_user = session_of member (fine "user" ∷ fine "secret" ∷ [])

is_user : (Api.get_me scripted as_user).0 ≡ ok "user"
unfolding Api.get_me fetch_api Api.receive uni_llm.Net.fetch
is_user = refl

not_admin : (j : String) → (Api.get_me scripted as_user).0 ≡ ok j → j ≢ "admin"
not_admin j e k = let same : ok "user" ≡ ok j = sym is_user ∙ e in cc

open_admin-closed_example :
    ((open_admin scripted admin_readers parse_number first_admin as_user).0 ≡ first_admin)
    × (((open_admin scripted admin_readers parse_number first_admin as_user).1.sent ≡ [])
        ⊎ ((open_admin scripted admin_readers parse_number first_admin as_user).1.sent
            ≡ [] ++ me_request scripted admin_readers parse_number as_user ∷ []))
open_admin-closed_example =
    open_admin-closed scripted admin_readers parse_number first_admin as_user not_admin
