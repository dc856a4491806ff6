-- ===== src/Dashboard/Outcomes.antt =====
-- What changing the password and deleting a key on web/src/app/dashboard/page.tsx lead to.
use uni_llm.Api
use uni_llm.Prelude.{List, ap, ◌∙◌, String, [], false, inl, inr, refl, true, ◌++◌, ◌∷◌, ◌≡◌, ◌⊎◌}
use uni_llm.Net.{Browser, Host, Outcome, Session, Request, err, ok, str, number}
use uni_llm.I18n.Shape.{Messages}
use uni_llm.Api.{no_options, api_base, fetch_api, request_of, send_json}
use uni_llm.Api.Token.{fetch_api_effect}
use uni_llm.Dashboard.Load.{sent-load_data}
use uni_llm.Dashboard.{
  DashboardPage, Readers, after_delete, after_password, handle_delete_key, update_password,
}

module _ (h : Host) (read : Readers h) (t : Messages) where
  after_password_lem :
      (r : Outcome h.Json × Session h) (p : DashboardPage h.Number)
      → ((j : h.Json) × (r.0 ≡ ok j)
          × (after_password h read t r p ≡ (
            record p { pwd_msg = t.dashboard.password_changed; old_pwd = ""; new_pwd = "" },
            r.1,
          )))
        ⊎ ((m : String) × (r.0 ≡ err m)
            × (after_password h read t r p ≡ (record p { pwd_msg = m }, r.1)))
  unfolding after_password
  after_password_lem (ok j, s) p = inl (j, refl, refl)
  after_password_lem (err m, s) p = inr (m, refl, refl)

  sent-after_password :
      (r : Outcome h.Json × Session h) (p : DashboardPage h.Number)
      → (after_password h read t r p).1 ≡ r.1
  unfolding after_password
  sent-after_password (ok j, s) p = refl
  sent-after_password (err m, s) p = refl

  -- `PUT` with both passwords as they were typed.
  abbrev pub password_request : DashboardPage h.Number → Session h → Request h.Number
  password_request p s =
      request_of api_base "/password"
        (send_json "PUT" (("old_password", str p.old_pwd) ∷ ("new_password", str p.new_pwd) ∷ []))
        s.browser

  -- Updating the password sends one request, with both passwords as they were typed. If it succeeds, the
  -- page says so and empties both fields; if it fails, the page shows the error and keeps what was typed.
  -- Nothing else on the page changes.
  pub update_password_lem :
      (p : DashboardPage h.Number) (s : Session h)
      → ((update_password h read t p s).1.sent ≡ s.sent ++ password_request p s ∷ [])
        × (((j : h.Json) × ((Api.change_password h p.old_pwd p.new_pwd s).0 ≡ ok j)
              × ((update_password h read t p s).0 ≡ record p {
                pwd_msg = t.dashboard.password_changed;
                old_pwd = "";
                new_pwd = "";
              }))
            ⊎ ((m : String) × ((Api.change_password h p.old_pwd p.new_pwd s).0 ≡ err m)
                × ((update_password h read t p s).0 ≡ record p { pwd_msg = m })))
  unfolding update_password
  update_password_lem p s = (
    ap (λ q. q.sent) (sent-after_password (Api.change_password h p.old_pwd p.new_pwd s) p)
        ∙ (unfold Api.change_password in ap (λ q. q.sent) (fetch_api_effect h "/password" _ s)),
    elim (after_password_lem (Api.change_password h p.old_pwd p.new_pwd s) p) [
      | inl (j, e, f) ↦ inl (j, e, ap (λ q. q.0) f)
      | inr (m, e, f) ↦ inr (m, e, ap (λ q. q.0) f)
    ],
  )

  abbrev pub delete_request : h.Number → Browser → Request h.Number
  delete_request id b = request_of api_base "/keys" (send_json "DELETE" (("id", number id) ∷ [])) b

  abbrev pub reload_requests : Browser → List (Request h.Number)
  reload_requests b =
      request_of api_base "/usage/summary" no_options b
      ∷ request_of api_base "/usage/by-model" no_options b
      ∷ request_of api_base "/keys" no_options b
      ∷ request_of api_base "/usage/daily" no_options b
      ∷ request_of api_base "/usage/recent" no_options b
      ∷ []

  -- What follows the `await` of `handleDeleteKey`: a reload, or an error that nobody sees.
  pub data Deleted (r : Outcome h.Json × Session h) (p : DashboardPage h.Number)
      (q : DashboardPage h.Number × Session h) : Type 0 where
    reloaded :
        (j : h.Json)
        → r.0 ≡ ok j
        → q.1.sent ≡ r.1.sent ++ reload_requests r.1.browser
        → Deleted r p q
    unseen :
        (m : String)
        → r.0 ≡ err m
        → q.0 ≡ record p { unhandled = p.unhandled ++ m ∷ [] }
        → q.1 ≡ r.1
        → Deleted r p q

  after_delete-Deleted :
      (r : Outcome h.Json × Session h) (p : DashboardPage h.Number)
      → Deleted r p (after_delete h read t r p)
  unfolding after_delete
  after_delete-Deleted (ok j, s) p = reloaded j refl (sent-load_data h read t p s)
  after_delete-Deleted (err m, s) p = unseen m refl refl refl

  -- Deleting a key that the user does not confirm does nothing. Otherwise one request to delete that key is
  -- sent; if it succeeds, the five requests of a reload follow; if it fails, the page shows nothing of it: only
  -- the errors that no handler catches grow.
  pub handle_delete_key-Deleted :
      (id : h.Number) (p : DashboardPage h.Number) (s : Session h)
      → (handle_delete_key h read t false id p s ≡ (p, s))
        × ((Api.delete_api_key h id s).1.sent ≡ s.sent ++ delete_request id s.browser ∷ [])
        × Deleted (Api.delete_api_key h id s) p (handle_delete_key h read t true id p s)
  unfolding handle_delete_key
  handle_delete_key-Deleted id p s = (
    refl,
    (unfold Api.delete_api_key in ap (λ q. q.sent) (fetch_api_effect h "/keys" _ s)),
    after_delete-Deleted (Api.delete_api_key h id s) p,
  )
