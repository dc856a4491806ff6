-- ===== src/Tests/Arrivals.antt =====
-- The properties about answers that overlap, on a scripted server, and those about the frame of the pages.
use mathlib.Core.List.{Perm}
use mathlib.Core.List.Perm
use uni_llm.Dashboard
use uni_llm.Admin
use uni_llm.Prelude.{List, Option, String, [], keep, none, refl, some, true, ℕ, ◌++◌, ◌∷◌, ◌≡◌}
use uni_llm.Net.{Session, parsed, response}
use uni_llm.I18n.Catalogs.{en}
use uni_llm.Markup.{View, nothing, tag}
use uni_llm.Markup.Clicks.{clicks}
use uni_llm.Together.{start_five}
use uni_llm.Together.Arrivals.{Event, arrives, await_all, edits, five, four, one, three, two}
use uni_llm.Together.Marks.{every}
use uni_llm.Together.Orders.{arrivals, edited}
use uni_llm.Dashboard.{data_requests, first_dashboard, load_data}
use uni_llm.Dashboard.Arrivals.{await_all-load_data, loading_data}
use uni_llm.Admin.{admin_requests, first_admin, load_all}
use uni_llm.Admin.Arrivals.{await_all-load_all, first_message, loading_all, with_message}
use uni_llm.Status.{first_status, poll_all}
use uni_llm.Status.Overlaps.{
  Happening, answered, idle, polled, times, watch_all, watch_all-poll_all,
}
use uni_llm.Playground.{first_render}
use uni_llm.Playground.Lists.{
  Moment, answers, live_all, models_request, quiet, sent-live_all, types_key,
}
use uni_llm.Header.{HeaderProps, models_key, site_header}
use uni_llm.Header.View.{account_clicks, anchors, header_view, header_view_lem, is_link}
use uni_llm.Tests.Fixtures.{
  admin_readers, expired, fine, member, naturals, parse_number, read_status, readers, scripted,
  session_of, visitor,
}

-- The token has expired for the second call, whose answer comes first of all.
abbrev expiring : Session scripted
expiring =
    session_of member (fine "s" ∷ expired ∷ response 500 (parsed "down") ∷ fine "d" ∷ fine "l" ∷ [])

abbrev second_first : Perm (two ∷ one ∷ three ∷ four ∷ five ∷ []) every
second_first = Perm.swap one two (three ∷ four ∷ five ∷ [])

abbrev typing : List (Event Dashboard.Arrivals.Entry)
typing =
    arrives two
    ∷ edits (Dashboard.Arrivals.enter_key_name "laptop")
    ∷ arrives one
    ∷ arrives three
    ∷ arrives four
    ∷ edits (Dashboard.Arrivals.enter_old "secret")
    ∷ arrives five
    ∷ []

await_all-load_data_example :
    await_all
      (loading_data scripted readers en)
      (start_five scripted data_requests expiring).0
      typing
      first_dashboard
      (start_five scripted data_requests expiring).1
    ≡ load_data scripted readers en
        (edited (loading_data scripted readers en) typing first_dashboard)
        expiring
await_all-load_data_example =
    await_all-load_data scripted readers en typing first_dashboard expiring second_first

abbrev booking : List (Event Admin.Arrivals.Entry)
booking =
    edits (Admin.Arrivals.enter_user_id "3")
    ∷ arrives two
    ∷ arrives one
    ∷ edits (Admin.Arrivals.enter_delta "5")
    ∷ arrives three
    ∷ arrives four
    ∷ arrives five
    ∷ []

await_all-load_all_example :
    await_all
      (loading_all scripted admin_readers parse_number)
      (start_five scripted admin_requests expiring).0
      booking
      first_admin
      (start_five scripted admin_requests expiring).1
    ≡ (
      with_message scripted admin_readers parse_number
          (first_message scripted admin_readers parse_number
            (start_five scripted admin_requests expiring).0
            (arrivals booking))
          (edited (loading_all scripted admin_readers parse_number) booking first_admin)
          (load_all scripted admin_readers parse_number
            (edited (loading_all scripted admin_readers parse_number) booking first_admin)
            expiring).0,
      (load_all scripted admin_readers parse_number
          (edited (loading_all scripted admin_readers parse_number) booking first_admin)
          expiring).1,
    )
await_all-load_all_example =
    await_all-load_all scripted admin_readers parse_number booking first_admin expiring second_first

abbrev slow : List (Happening ℕ)
slow = polled ∷ polled ∷ answered 0 70 ∷ polled ∷ answered 0 80 ∷ answered 0 95 ∷ []

abbrev watched : Session scripted
watched =
    session_of visitor
      (fine "operational" ∷ response 502 (parsed "bad gateway") ∷ fine "degraded" ∷ [])

watch_all-poll_all_example :
    (
      (watch_all scripted ℕ en read_status slow
          (idle scripted ℕ en read_status first_status watched)).page,
      (watch_all scripted ℕ en read_status slow
          (idle scripted ℕ en read_status first_status watched)).session,
    )
    ≡ poll_all scripted ℕ en read_status (times scripted ℕ en read_status slow) first_status watched
watch_all-poll_all_example =
    watch_all-poll_all scripted ℕ en read_status slow first_status watched
      (refl, (refl, (refl, refl)))

abbrev ids_of : String → Option (List String)
ids_of j = some (j ∷ [])

abbrev keyed : Session scripted
keyed = session_of member (fine "old" ∷ fine "new" ∷ [])

abbrev keys_typed : List Moment
keys_typed = types_key "s" ∷ types_key "sk-1" ∷ types_key "sk-12" ∷ answers 1 ∷ answers 0 ∷ []

sent-live_all_example :
    (live_all scripted ids_of keys_typed
      (quiet scripted ids_of (first_render none) keyed)).session.sent
    ≡ models_request "sk-1" ∷ models_request "sk-12" ∷ []
sent-live_all_example =
    sent-live_all scripted ids_of keys_typed (quiet scripted ids_of (first_render none) keyed)

abbrev a_page : View ℕ
a_page = tag "div" [] (tag "SiteHeader" [] nothing)

abbrev on_models : HeaderProps ℕ
on_models = record {
  active_nav = some models_key;
  sticky = true;
  balance = some 12;
  admin_badge = true;
}

header_view_lem_example :
    (anchors (header_view naturals 7 en on_models a_page nothing true)
      ≡ (site_header naturals en on_models true).brand
          ∷ (site_header naturals en on_models true).nav
        ++ (anchors a_page
            ++ (anchors {E = ℕ} nothing
                ++ keep is_link (site_header naturals en on_models true).account)))
    × (clicks (header_view naturals 7 en on_models a_page nothing true)
        ≡ clicks a_page ++ (clicks nothing ++ account_clicks naturals 7 true))
header_view_lem_example = header_view_lem naturals 7 en on_models a_page nothing true
