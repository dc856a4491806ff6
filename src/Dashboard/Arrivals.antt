-- ===== src/Dashboard/Arrivals.antt =====
-- The reload of web/src/app/dashboard/page.tsx while its answers come in any order and the user goes on.
use mathlib.Core.List.{Perm}
use uni_llm.Prelude.{
  Bool, List, Option-cases, Perm-some_of, String, ap, arith, false, inl, inr, none, refl, some, sym,
  true, ◌∙◌, ◌≡◌,
}
use uni_llm.Net.{Host, Outcome, Reply, Session, err, ok, push_route}
use uni_llm.I18n.Shape.{Messages}
use uni_llm.Api.{receive, sign_off}
use uni_llm.Api.Token.{is_unauthorized, outcome_of, receive_lem}
use uni_llm.Together.{Five, start_five}
use uni_llm.Together.Arrivals.{
  Awaiting, Event, Nth, await_all, breaks, five, four, nth, one, three, two,
}
use uni_llm.Together.Endings.{await_all-ending, ending}
use uni_llm.Together.Orders.{
  IsOrderly, arrivals, edited, first_break, first_break-none_each, first_break-some, gone, results,
  settle_five-results,
}
use uni_llm.Dashboard.{DashboardPage, Readers, Tab, apply_data, data_requests, list_of, load_data}
use uni_llm.Dashboard.Actions.{Action, act, show_tab, type_key_name, type_new, type_old}
use uni_llm.Together.Marks.{every, same_nth, some_of-every}

-- What the user may change at once, without a request.
pub data Entry : Type 0 where
  choose_tab : Tab → Entry
  enter_key_name enter_old enter_new : String → Entry

unfoldable pub enter : {Number : Type 0} → Entry → DashboardPage Number → DashboardPage Number
enter (choose_tab x) p = record p { tab = x }
enter (enter_key_name v) p = record p { new_key_name = v }
enter (enter_old v) p = record p { old_pwd = v }
enter (enter_new v) p = record p { new_pwd = v }

abbrev as_action : {Number : Type 0} → Entry → Action Number
as_action (choose_tab x) = show_tab x
as_action (enter_key_name v) = type_key_name v
as_action (enter_old v) = type_old v
as_action (enter_new v) = type_new v

-- The last two calls have a `.catch`.
abbrev pub has_catch : Nth → Bool
has_catch four = true
has_catch five = true
has_catch _ = false

module _ (h : Host) (read : Readers h) (t : Messages) where
  act-enter :
      (asked : Bool) (e : Entry) (p : DashboardPage h.Number) (s : Session h)
      → act h read t asked (as_action e) p s ≡ (enter e p, s)
  unfolding act enter
  act-enter asked (choose_tab x) p s = refl
  act-enter asked (enter_key_name v) p s = refl
  act-enter asked (enter_old v) p s = refl
  act-enter asked (enter_new v) p s = refl

  -- The five setters after the `await`.
  unfoldable pub show_data : Five (Outcome h.Json) → DashboardPage h.Number → DashboardPage h.Number
  show_data r p = record p {
    summary = elim r.first [ ok a ↦ some (read.summary a) | err _ ↦ none ];
    models = list_of h read t read.models r.second;
    keys = list_of h read t read.keys r.third;
    daily = list_of h read t read.days r.fourth;
    recent_logs = list_of h read t read.logs r.fifth;
  }

  -- `loadData` from its `await` on.
  abbrev pub loading_data : Awaiting h (DashboardPage h.Number) Entry
  loading_data = record {
    handle = receive h;
    is_caught = has_catch;
    on_fulfilled = show_data;
    on_rejected = λ m p. p;
    leave = push_route "/login";
    edit = enter;
  }

  enter-show_data :
      (r : Five (Outcome h.Json)) (e : Entry) (p : DashboardPage h.Number)
      → enter e (show_data r p) ≡ show_data r (enter e p)
  unfolding enter show_data
  enter-show_data r (choose_tab x) p = refl
  enter-show_data r (enter_key_name v) p = refl
  enter-show_data r (enter_old v) p = refl
  enter-show_data r (enter_new v) p = refl

  loading_data-IsOrderly : IsOrderly loading_data
  unfolding enter show_data sign_off
  loading_data-IsOrderly = record {
    outcome = outcome_of h;
    expires = is_unauthorized;
    handled = receive_lem h;
    left = λ b. ground arith;
    fulfilled-edit = enter-show_data;
    rejected-edit = λ m e p. refl;
  }

  -- The promise is rejected in the end: `apply_data` leaves.
  apply_data-leaves :
      (r : Five (Outcome h.Json)) (p : DashboardPage h.Number) (s : Session h) (i : Nth)
      (m : String)
      → breaks loading_data i (nth r i) ≡ some m
      → apply_data h read t r p s ≡ (p, record s { browser = push_route "/login" s.browser })
  unfolding apply_data
  apply_data-leaves r p s one m e = ground arith
  apply_data-leaves r p s two m e = ground arith
  apply_data-leaves r p s three m e = ground arith
  apply_data-leaves r p s four m e = ground arith
  apply_data-leaves r p s five m e = ground arith

  apply_data-shows :
      (r : Five (Outcome h.Json)) (p : DashboardPage h.Number) (s : Session h)
      → ((i : Nth) → breaks loading_data i (nth r i) ≡ none)
      → apply_data h read t r p s ≡ (show_data r p, s)
  unfolding apply_data show_data
  apply_data-shows r p s k = ground (arith, k one, k two, k three)

  module _ (replies : Five (Reply h.Json)) (is : List Nth) (d : Perm is every)
      (p : DashboardPage h.Number) (s : Session h) where
    ending-apply_data :
        ending loading_data loading_data-IsOrderly replies
          (first_break loading_data loading_data-IsOrderly replies is)
          true
          p
          s
        ≡ apply_data h read t (results loading_data loading_data-IsOrderly replies) p s
    ending-apply_data =
        elim (Option-cases (first_break loading_data loading_data-IsOrderly replies is)) [
          | inl e ↦ rw e (
              sym (
                apply_data-shows _ p s (λ j.
                  first_break-none_each loading_data loading_data-IsOrderly replies is j e
                    (Perm-some_of (λ i. same_nth i j) d ∙ some_of-every j))))
          | inr (m, e) ↦ rw e (
              let (i, b) = first_break-some loading_data loading_data-IsOrderly replies is m e in
              sym (apply_data-leaves _ p s i m b))
        ]

  apply_data-load_data :
      (p : DashboardPage h.Number) (s : Session h)
      → apply_data h read t
          (results loading_data loading_data-IsOrderly (start_five h data_requests s).0)
          p
          (record (start_five h data_requests s).1 {
            browser =
                gone loading_data loading_data-IsOrderly
                  (start_five h data_requests s).0
                  every
                  (start_five h data_requests s).1.browser;
          })
        ≡ load_data h read t p s
  unfolding load_data
  apply_data-load_data p s =
      ap (λ q. apply_data h read t q.0 p q.1)
        (sym (
          settle_five-results loading_data loading_data-IsOrderly (start_five h data_requests s).0
            (start_five h data_requests s).1))

  -- The answers of a reload may come in any order, and the user may change the tab and type meanwhile: in
  -- the end the page and the session are those of the reload whose answers are taken in the order of the
  -- calls, on the page with all that the user has entered.
  pub await_all-load_data :
      (events : List (Event Entry)) (p : DashboardPage h.Number) (s : Session h)
      → Perm (arrivals events) every
      → await_all loading_data
          (start_five h data_requests s).0
          events
          p
          (start_five h data_requests s).1
        ≡ load_data h read t (edited loading_data events p) s
  await_all-load_data events p s d =
      await_all-ending loading_data loading_data-IsOrderly (start_five h data_requests s).0 events p
        (start_five h data_requests s).1 d
      ∙ ending-apply_data (start_five h data_requests s).0 (arrivals events) d
          (edited loading_data events p) _
      ∙ apply_data-load_data (edited loading_data events p) s
