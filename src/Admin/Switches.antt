-- ===== src/Admin/Switches.antt =====
-- What the switches of web/src/app/admin/page.tsx send.
use mathlib.Core.List.{append_assoc}
use uni_llm.AdminApi
use uni_llm.Prelude.{Bool, List, String, [], ap, arith, not, refl, some, ◌++◌, ◌<+>◌, ◌∙◌, ◌∷◌, ◌≡◌}
use uni_llm.Net.{
  Browser, Host, Options, Outcome, Reply, Request, Session, err, fetch, flag, number, ok, rejected,
  response,
}
use uni_llm.Api.{headers_of, no_options, request_of}
use uni_llm.AdminApi.{admin_base, admin_fetch, admin_receive}
use uni_llm.Together.{Five, settle_five, start_five}
use uni_llm.Admin.{
  AdminPage, AdminReaders, after_toggle, apply_all, handle_toggle_model, handle_toggle_provider,
  load_all,
}

module _ (h : Host) where
  sent-admin_receive : (r : Reply h.Json) (s : Session h) → (admin_receive h r s).1.sent ≡ s.sent
  unfolding admin_receive
  sent-admin_receive (rejected m) s = refl
  sent-admin_receive (response status x) s = ground arith

  sent-settle_five :
      (r : Five (Reply h.Json)) (s : Session h)
      → (settle_five h (admin_receive h) r s).1.sent ≡ s.sent
  unfolding settle_five
  sent-settle_five r s = simp sent-admin_receive

  pub sent-admin_fetch :
      (path : String) (o : Options h.Number) (s : Session h)
      → (admin_fetch h path o s).1.sent ≡ s.sent ++ request_of admin_base path o s.browser ∷ []
  unfolding admin_fetch fetch
  sent-admin_fetch path o s = sent-admin_receive _ _

  -- The requests of a reload.
  abbrev pub reload_requests : Browser → List (Request h.Number)
  reload_requests b =
      request_of admin_base "/stats" no_options b
      ∷ request_of admin_base "/users" no_options b
      ∷ request_of admin_base "/providers" no_options b
      ∷ request_of admin_base "/models" no_options b
      ∷ request_of admin_base "/provider-keys" no_options b
      ∷ []

  -- `PUT` with the identifier and the state opposite to the current one, and nothing else.
  abbrev pub toggle_request : String → h.Number → Bool → Browser → Request h.Number
  toggle_request path id current b = record {
    url = "/api/admin" <+> path;
    method = some "PUT";
    headers = headers_of [] b;
    body = some (("id", number id) ∷ ("is_active", flag (not current)) ∷ []);
  }

module _ (h : Host) (read : AdminReaders h) (parse : String → h.Number) where
  sent-load_all :
      (p : AdminPage h.Number) (s : Session h)
      → (load_all h read parse p s).1.sent ≡ s.sent ++ reload_requests h s.browser
  unfolding load_all start_five fetch
  sent-load_all p s = simp (sent-settle_five, append_assoc)

  unhandled-apply_all :
      (r : Five (Outcome h.Json)) (p : AdminPage h.Number)
      → (apply_all h read parse r p).unhandled ≡ p.unhandled
  unfolding apply_all
  unhandled-apply_all r p = ground arith

  unhandled-load_all :
      (p : AdminPage h.Number) (s : Session h)
      → (load_all h read parse p s).0.unhandled ≡ p.unhandled
  unfolding load_all
  unhandled-load_all p s = unhandled-apply_all _ p

  -- The result `q` of a switch on the page `p`: the request `r` was sent, and then the reload, or the
  -- message of the failure stayed unhandled.
  pub data Switched (before : List (Request h.Number)) (r : Request h.Number)
      (p : AdminPage h.Number) (q : AdminPage h.Number × Session h) : Type 0 where
    reloads :
        (b : Browser)
        → q.1.sent ≡ (before ++ r ∷ []) ++ reload_requests h b
        → q.0.unhandled ≡ p.unhandled
        → Switched before r p q
    fails :
        (m : String)
        → q.1.sent ≡ before ++ r ∷ []
        → q.0 ≡ record p { unhandled = p.unhandled ++ m ∷ [] }
        → Switched before r p q

  after_toggle-Switched :
      (o : Outcome h.Json × Session h) (before : List (Request h.Number)) (r : Request h.Number)
      (p : AdminPage h.Number)
      → o.1.sent ≡ before ++ r ∷ []
      → Switched before r p (after_toggle h read parse o p)
  unfolding after_toggle
  after_toggle-Switched (ok j, s) before r p e =
      reloads s.browser (sent-load_all p s ∙ ap (λ l. l ++ reload_requests h s.browser) e)
        (unhandled-load_all p s)
  after_toggle-Switched (err m, s) before r p e = fails m e refl

  -- Both switches of the page first send one request, with the identifier and the opposite of the current
  -- state alone. Then they reload all data, or, if the request failed, send nothing more and leave the
  -- page as it is but for an error that nothing handles.
  pub toggles_lem :
      (id : h.Number) (current : Bool) (p : AdminPage h.Number) (s : Session h)
      → Switched s.sent
          (toggle_request h "/providers/toggle" id current s.browser)
          p
          (handle_toggle_provider h read parse id current p s)
        × Switched s.sent
            (toggle_request h "/models" id current s.browser)
            p
            (handle_toggle_model h read parse id current p s)
  unfolding handle_toggle_provider handle_toggle_model AdminApi.toggle_provider
      AdminApi.update_model request_of
  toggles_lem id current p s = (
    after_toggle-Switched _ s.sent _ p (sent-admin_fetch h _ _ s),
    after_toggle-Switched _ s.sent _ p (sent-admin_fetch h _ _ s),
  )
