-- ===== src/Journeys/Access.antt =====
-- From the login page to the pages behind it, and back when the token has expired.
use uni_llm.Api
use uni_llm.Prelude.{
  Bool-cases, All, Bool, String, arith, false, if◌then◌else◌, inl, inr, is_empty, lookup,
  lookup-remove_self, none, refl, some, some_of, true, ◌++◌, ◌<+>◌, ◌||◌, ◌∙◌, ◌≡◌,
}
use uni_llm.Net.{Browser, Host, Outcome, Reply, Request, Session, err, fetch, ok, push_route}
use uni_llm.I18n.Shape.{Messages}
use uni_llm.Api.{api_base, no_options, receive, request_of, sign_off, stored_token}
use uni_llm.Api.Token.{is_unauthorized, receive_browser, request_of-authorized}
use uni_llm.Api.Trace.{keep_token-stored}
use uni_llm.Together.{Five, settle_five, start_five}
use uni_llm.Together.Arrivals.{nth}
use uni_llm.Together.Marks.{every}
use uni_llm.Together.Orders.{sign_off-sign_off}
use uni_llm.Login.{LoginPage, after_attempt, attempt, handle_submit}
use uni_llm.Dashboard.{DashboardPage, Readers, data_requests, load_data, open_dashboard}
use uni_llm.Dashboard.Load.{Loaded, load_data-Loaded, sent-load_data, settled}
use uni_llm.Dashboard.Outcomes.{reload_requests}
use uni_llm.Admin.{AdminPage, AdminReaders, open_admin}

abbrev off : Bool → Browser → Browser
off c b = if c then sign_off b else b

offs :
    (v w x y z : Bool) (b : Browser)
    → (v || (w || (x || (y || (z || false))))) ≡ true
    → off z (off y (off x (off w (off v b)))) ≡ sign_off b
offs v w x y z b e = ground (arith, sign_off-sign_off b)

module _ (h : Host) where
  settle_five-browser :
      (r : Five (Reply h.Json)) (s : Session h)
      → (settle_five h (receive h) r s).1.browser
        ≡ off (is_unauthorized r.fifth) (
            off (is_unauthorized r.fourth) (
              off
                (is_unauthorized r.third)
                (off (is_unauthorized r.second) (off (is_unauthorized r.first) s.browser))))
  unfolding settle_five
  settle_five-browser r s = simp (receive_browser h)

  start_five-browser : (s : Session h) → (start_five h data_requests s).1.browser ≡ s.browser
  unfolding start_five fetch
  start_five-browser s = refl

  -- One of the five answers that the next load of the dashboard gets says that the token is not valid.
  abbrev pub meets_401 : Session h → Bool
  meets_401 s = some_of (λ i. is_unauthorized (nth (start_five h data_requests s).0 i)) every

  settled-signed_off :
      (s : Session h) → meets_401 s ≡ true → (settled h s).1.browser ≡ sign_off s.browser
  settled-signed_off s e =
      settle_five-browser (start_five h data_requests s).0 (start_five h data_requests s).1
      ∙ rw (start_five-browser s) (
          let r = (start_five h data_requests s).0 in
          offs (is_unauthorized r.first) (is_unauthorized r.second) (is_unauthorized r.third)
            (is_unauthorized r.fourth) (is_unauthorized r.fifth) s.browser e)

  -- Nobody is signed in, and the browser is at the login page.
  pub record IsOut (b : Browser) : Type 0 where
    pub no_token : stored_token b ≡ none
    pub at_login : b.href ≡ "/login"

  IsOut-sign_off : (b : Browser) → b.has_window ≡ true → IsOut (sign_off b)
  unfolding stored_token sign_off
  IsOut-sign_off b w = rw w (record { no_token = rw lookup-remove_self refl; at_login = refl })

  IsOut-push : (path : String) (b : Browser) → IsOut b → IsOut (push_route path b)
  unfolding stored_token
  IsOut-push path b o = record { no_token = o.no_token; at_login = o.at_login }

  module _ (read : Readers h) (t : Messages) where
    load_data-IsOut :
        (p : DashboardPage h.Number) (s : Session h)
        → s.browser.has_window ≡ true
        → meets_401 s ≡ true
        → IsOut (load_data h read t p s).1.browser
    load_data-IsOut p s w e = elim (load_data-Loaded h read t p s) [
      | Loaded.shows a b c x y z i j k l ↦
          rw (l, settled-signed_off s e) (IsOut-sign_off s.browser w)
      | Loaded.leaves m i j k ↦
          rw (k, settled-signed_off s e)
            (IsOut-push "/login" (sign_off s.browser) (IsOut-sign_off s.browser w))
    ]

    is_logged_in-out : (s : Session h) → IsOut s.browser → Api.is_logged_in h s ≡ false
    unfolding Api.is_logged_in
    is_logged_in-out s o = rw (o.no_token, Api.is_logged_in)

    open_dashboard-out :
        (p : DashboardPage h.Number) (s : Session h)
        → IsOut s.browser
        → (open_dashboard h read t p s).1.sent ≡ s.sent
    unfolding open_dashboard
    open_dashboard-out p s o = rw (is_logged_in-out s o) refl

    open_admin-out :
        (reader : AdminReaders h) (parse : String → h.Number) (p : AdminPage h.Number)
        (s : Session h)
        → IsOut s.browser
        → (open_admin h reader parse p s).1.sent ≡ s.sent
    unfolding open_admin
    open_admin-out reader parse p s o = rw (is_logged_in-out s o) refl

    open_dashboard-IsOut :
        (p : DashboardPage h.Number) (s : Session h)
        → s.browser.has_window ≡ true
        → Api.is_logged_in h s ≡ true
        → meets_401 s ≡ true
        → IsOut (open_dashboard h read t p s).1.browser
    unfolding open_dashboard
    open_dashboard-IsOut p s w l e = rw l (load_data-IsOut p s w e)

    -- If a signed-in user opens the dashboard and any one of its five calls, also one whose failure the page
    -- ignores, is answered with status 401, then the token is gone and the browser is at the login page; and
    -- the dashboard or the administration page, opened in that session, asks the server for nothing.
    pub open_dashboard-expired :
        (p : DashboardPage h.Number) (s : Session h)
        → s.browser.has_window ≡ true
        → Api.is_logged_in h s ≡ true
        → meets_401 s ≡ true
        → IsOut (open_dashboard h read t p s).1.browser
          × ((q : DashboardPage h.Number)
              → (open_dashboard h read t q (open_dashboard h read t p s).1).1.sent
                ≡ (open_dashboard h read t p s).1.sent)
          × ((reader : AdminReaders h) (parse : String → h.Number) (q : AdminPage h.Number)
              → (open_admin h reader parse q (open_dashboard h read t p s).1).1.sent
                ≡ (open_dashboard h read t p s).1.sent)
    open_dashboard-expired p s w l e =
        let o = open_dashboard-IsOut p s w l e in
        (
          o,
          (λ q. open_dashboard-out q (open_dashboard h read t p s).1 o),
          (λ reader parse q. open_admin-out reader parse q (open_dashboard h read t p s).1 o),
        )

    after_attempt-session :
        (r : Outcome h.Json × Session h) (p : LoginPage) (j : h.Json)
        → r.0 ≡ ok j
        → (after_attempt h r p).1 ≡ record r.1 { browser = push_route "/dashboard" r.1.browser }
    unfolding after_attempt
    after_attempt-session (ok k, s) p j e = refl
    after_attempt-session (err m, s) p j e = cc

    attempt-stored :
        (p : LoginPage) (s : Session h) (j : h.Json) (token : String)
        → (attempt h p s).0 ≡ ok j
        → h.token_of j ≡ token
        → is_empty token ≡ false
        → stored_token (attempt h p s).1.browser ≡ some token
    unfolding attempt Api.login Api.register
    attempt-stored p s j token e f n = elim (Bool-cases p.is_register) [
      | inl r ↦ rw r (keep_token-stored h _ j token (rw r at e) f n)
      | inr r ↦ rw r (keep_token-stored h _ j token (rw r at e) f n)
    ]

    stored-push : (path : String) (b : Browser) → stored_token (push_route path b) ≡ stored_token b
    unfolding stored_token
    stored-push path b = refl

    is_logged_in-some :
        (s : Session h) (token : String)
        → stored_token s.browser ≡ some token
        → Api.is_logged_in h s ≡ true
    unfolding Api.is_logged_in
    is_logged_in-some s token e = rw (e, Api.is_logged_in)

    handle_submit-stored :
        (p : LoginPage) (s : Session h) (j : h.Json) (token : String)
        → (attempt h p s).0 ≡ ok j
        → h.token_of j ≡ token
        → is_empty token ≡ false
        → stored_token (handle_submit h p s).1.browser ≡ some token
    unfolding handle_submit
    handle_submit-stored p s j token e f n =
        rw (after_attempt-session (attempt h p s) p j e)
          (stored-push "/dashboard" (attempt h p s).1.browser ∙ attempt-stored p s j token e f n)

    -- The header that says who asks.
    abbrev pub Bears : String → Request h.Number → Type 0
    Bears token r = lookup "Authorization" r.headers ≡ some ("Bearer " <+> token)

    request_of-Bears :
        (path : String) (s : Session h) (token : String)
        → stored_token s.browser ≡ some token
        → Bears token (request_of api_base path no_options s.browser)
    request_of-Bears path s token k =
        request_of-authorized api_base path no_options s.browser token k

    -- After the login form has been sent with success, to sign in or to register, with a token that is not empty,
    -- the dashboard opens with the five requests of its data, and each of them bears that token.
    pub submitted_then_authorized :
        (p : LoginPage) (q : DashboardPage h.Number) (s : Session h) (j : h.Json) (token : String)
        → (attempt h p s).0 ≡ ok j
        → h.token_of j ≡ token
        → is_empty token ≡ false
        → ((open_dashboard h read t q (handle_submit h p s).1).1.sent
            ≡ (handle_submit h p s).1.sent
              ++ reload_requests h read t (handle_submit h p s).1.browser)
          × All (Bears token) (reload_requests h read t (handle_submit h p s).1.browser)
    unfolding open_dashboard
    submitted_then_authorized p q s j token e f n =
        let s' = (handle_submit h p s).1 in
        let k = handle_submit-stored p s j token e f n in
        (
          rw (is_logged_in-some s' token k) (sent-load_data h read t q s'),
          (
            request_of-Bears "/usage/summary" s' token k,
            (
              request_of-Bears "/usage/by-model" s' token k,
              (
                request_of-Bears "/keys" s' token k,
                (
                  request_of-Bears "/usage/daily" s' token k,
                  (request_of-Bears "/usage/recent" s' token k, tt),
                ),
              ),
            ),
          ),
        )
