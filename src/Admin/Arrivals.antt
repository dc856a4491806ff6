-- ===== src/Admin/Arrivals.antt =====
-- The reload of web/src/app/admin/page.tsx while its answers come in any order and the administrator goes on.
use mathlib.Core.List.{Perm}
use uni_llm.Prelude.{
  List, Option, Option-cases, Perm-some_of, String, ap, arith, false, if◌then◌else◌, inl, inr, none,
  or_else, refl, some, sym, true, ◌∙◌, ◌≡◌,
}
use uni_llm.Net.{Host, Outcome, Reply, Session, err}
use uni_llm.Api.{sign_off}
use uni_llm.Api.Token.{is_unauthorized, outcome_of, receive_lem}
use uni_llm.AdminApi.{admin_receive}
use uni_llm.AdminApi.Agree.{admin_receive-receive, is_forbidden}
use uni_llm.Together.{Five, start_five}
use uni_llm.Together.Arrivals.{
  Awaiting, Event, Nth, await_all, breaks, five, four, nth, one, three, two,
}
use uni_llm.Admin.Actions.{
  AdminAction, act, show_tab, type_delta, type_key_provider, type_key_rpm, type_key_value,
  type_reason, type_user_id,
}
use uni_llm.Together.Marks.{every, same_nth, some_of-every}
use uni_llm.Together.Endings.{await_all-ending, ending}
use uni_llm.Together.Orders.{
  IsOrderly, arrivals, edited, first_break, first_break-none_each, first_break-some, gone, results,
  settle_five-results,
}
use uni_llm.Admin.{
  AdminPage, AdminReaders, AdminTab, admin_requests, apply_all, first_error, load_all, member_list,
  stats_of,
}

-- What the administrator may change at once, without a request.
pub data Entry : Type 0 where
  choose_tab : AdminTab → Entry
  enter_user_id enter_delta enter_reason enter_key_provider enter_key_value enter_key_rpm :
      String → Entry

unfoldable pub enter : {Number : Type 0} → Entry → AdminPage Number → AdminPage Number
enter (choose_tab x) p = record p { tab = x }
enter (enter_user_id v) p = record p { bal_user_id = v }
enter (enter_delta v) p = record p { bal_delta = v }
enter (enter_reason v) p = record p { bal_reason = v }
enter (enter_key_provider v) p = record p { new_key_provider_id = v }
enter (enter_key_value v) p = record p { new_key_value = v }
enter (enter_key_rpm v) p = record p { new_key_rpm = v }

abbrev as_action : {Number : Type 0} → Entry → AdminAction Number
as_action (choose_tab x) = show_tab x
as_action (enter_user_id v) = type_user_id v
as_action (enter_delta v) = type_delta v
as_action (enter_reason v) = type_reason v
as_action (enter_key_provider v) = type_key_provider v
as_action (enter_key_value v) = type_key_value v
as_action (enter_key_rpm v) = type_key_rpm v

module _ (h : Host) (read : AdminReaders h) (parse : String → h.Number) where
  act-enter :
      (e : Entry) (p : AdminPage h.Number) (s : Session h)
      → act h read parse (as_action e) p s ≡ (enter e p, s)
  unfolding act enter
  act-enter (choose_tab x) p s = refl
  act-enter (enter_user_id v) p s = refl
  act-enter (enter_delta v) p s = refl
  act-enter (enter_reason v) p s = refl
  act-enter (enter_key_provider v) p s = refl
  act-enter (enter_key_value v) p s = refl
  act-enter (enter_key_rpm v) p s = refl

  -- The five setters after the `await`.
  unfoldable pub show_all : Five (Outcome h.Json) → AdminPage h.Number → AdminPage h.Number
  show_all r p = record p {
    stats = stats_of h read parse r.first;
    users = member_list h read parse read.users r.second;
    providers = member_list h read parse read.providers r.third;
    models = member_list h read parse read.models r.fourth;
    provider_keys = member_list h read parse read.keys r.fifth;
  }

  -- `loadAll` from its `await` on.
  abbrev pub loading_all : Awaiting h (AdminPage h.Number) Entry
  loading_all = record {
    handle = admin_receive h;
    is_caught = λ i. false;
    on_fulfilled = show_all;
    on_rejected = λ m p. record p { error = m };
    leave = λ b. b;
    edit = enter;
  }

  abbrev pub admin_outcome : Reply h.Json → Outcome h.Json
  admin_outcome r = if is_forbidden r then err "Admin access required" else outcome_of h r

  pub admin_receive_lem :
      (r : Reply h.Json) (s : Session h)
      → admin_receive h r s ≡ (
        admin_outcome r,
        record s { browser = if is_unauthorized r then sign_off s.browser else s.browser },
      )
  admin_receive_lem r s = admin_receive-receive h r s ∙ rw (receive_lem h r s) (ground arith)

  enter-show_all :
      (r : Five (Outcome h.Json)) (e : Entry) (p : AdminPage h.Number)
      → enter e (show_all r p) ≡ show_all r (enter e p)
  unfolding enter show_all
  enter-show_all r (choose_tab x) p = refl
  enter-show_all r (enter_user_id v) p = refl
  enter-show_all r (enter_delta v) p = refl
  enter-show_all r (enter_reason v) p = refl
  enter-show_all r (enter_key_provider v) p = refl
  enter-show_all r (enter_key_value v) p = refl
  enter-show_all r (enter_key_rpm v) p = refl

  enter-error :
      (m : String) (e : Entry) (p : AdminPage h.Number)
      → enter e (record p { error = m }) ≡ record (enter e p) { error = m }
  unfolding enter
  enter-error m (choose_tab x) p = refl
  enter-error m (enter_user_id v) p = refl
  enter-error m (enter_delta v) p = refl
  enter-error m (enter_reason v) p = refl
  enter-error m (enter_key_provider v) p = refl
  enter-error m (enter_key_value v) p = refl
  enter-error m (enter_key_rpm v) p = refl

  pub loading_all-IsOrderly : IsOrderly loading_all
  loading_all-IsOrderly = record {
    outcome = admin_outcome;
    expires = is_unauthorized;
    handled = admin_receive_lem;
    left = λ b. refl;
    fulfilled-edit = enter-show_all;
    rejected-edit = enter-error;
  }

  -- A failure leaves everything on the page but the message.
  apply_all-fails :
      (r : Five (Outcome h.Json)) (p : AdminPage h.Number) (i : Nth) (m k : String)
      → breaks loading_all i (nth r i) ≡ some m
      → record p { error = k } ≡ record (apply_all h read parse r p) { error = k }
  unfolding apply_all first_error
  apply_all-fails r p one m k e = ground arith
  apply_all-fails r p two m k e = ground arith
  apply_all-fails r p three m k e = ground arith
  apply_all-fails r p four m k e = ground arith
  apply_all-fails r p five m k e = ground arith

  apply_all-shows :
      (r : Five (Outcome h.Json)) (p : AdminPage h.Number)
      → ((i : Nth) → breaks loading_all i (nth r i) ≡ none)
      → apply_all h read parse r p ≡ show_all r p
  unfolding apply_all show_all first_error
  apply_all-shows r p k = ground (arith, k one, k two, k three, k four, k five)

  -- The message of the call that fails first.
  abbrev pub first_message : Five (Reply h.Json) → List Nth → Option String
  first_message replies is = first_break loading_all loading_all-IsOrderly replies is

  -- The page, with the message of the first failure in the order of arrival.
  abbrev pub with_message :
      Option String → AdminPage h.Number → AdminPage h.Number → AdminPage h.Number
  with_message m p q = record q { error = or_else m p.error }

  module _ (replies : Five (Reply h.Json)) (is : List Nth) (d : Perm is every)
      (p : AdminPage h.Number) (s : Session h) where
    ending-apply_all :
        ending loading_all loading_all-IsOrderly replies (first_message replies is) true p s ≡ (
          with_message
              (first_message replies is)
              p
              (apply_all h read parse (results loading_all loading_all-IsOrderly replies) p),
          s,
        )
    ending-apply_all = elim (Option-cases (first_message replies is)) [
      | inl e ↦
          rw
            (
              e,
              apply_all-shows (results loading_all loading_all-IsOrderly replies) p (λ j.
                  first_break-none_each loading_all loading_all-IsOrderly replies is j e
                    (Perm-some_of (λ i. same_nth i j) d ∙ some_of-every j)),
            )
            (unfold show_all in refl)
      | inr (m, e) ↦ rw e (
          let (i, b) = first_break-some loading_all loading_all-IsOrderly replies is m e in
          ap (λ q. (q, s)) (apply_all-fails _ p i m m b))
    ]

  apply_all-load_all :
      (p : AdminPage h.Number) (s : Session h)
      → (
        apply_all h read parse
            (results loading_all loading_all-IsOrderly (start_five h admin_requests s).0)
            p,
        record (start_five h admin_requests s).1 {
          browser =
              gone loading_all loading_all-IsOrderly
                (start_five h admin_requests s).0
                every
                (start_five h admin_requests s).1.browser;
        },
      )
        ≡ load_all h read parse p s
  unfolding load_all
  apply_all-load_all p s =
      ap (λ q. (apply_all h read parse q.0 p, q.1))
        (sym (
          settle_five-results loading_all loading_all-IsOrderly (start_five h admin_requests s).0
            (start_five h admin_requests s).1))

  -- The answers of a reload may come in any order, and the administrator may change the tab and type
  -- meanwhile: in the end the page and the session are those of the reload whose answers are taken in the
  -- order of the calls, on the page with all that has been entered, but for the message: it is that of the
  -- failure that came first, or the old one if no call failed.
  pub await_all-load_all :
      (events : List (Event Entry)) (p : AdminPage h.Number) (s : Session h)
      → Perm (arrivals events) every
      → await_all loading_all
          (start_five h admin_requests s).0
          events
          p
          (start_five h admin_requests s).1
        ≡ (
          with_message
              (first_message (start_five h admin_requests s).0 (arrivals events))
              (edited loading_all events p)
              (load_all h read parse (edited loading_all events p) s).0,
          (load_all h read parse (edited loading_all events p) s).1,
        )
  await_all-load_all events p s d =
      await_all-ending loading_all loading_all-IsOrderly (start_five h admin_requests s).0 events p
        (start_five h admin_requests s).1 d
      ∙ ending-apply_all (start_five h admin_requests s).0 (arrivals events) d
          (edited loading_all events p) _
      ∙ ap
          (λ q. (
            with_message (first_message (start_five h admin_requests s).0 (arrivals events))
                (edited loading_all events p) q.0,
            q.1,
          ))
          (apply_all-load_all (edited loading_all events p) s)
