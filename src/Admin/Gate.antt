-- ===== src/Admin/Gate.antt =====
-- Who gets to see the data of web/src/app/admin/page.tsx.
use uni_llm.Api
use uni_llm.Prelude.{
  Bool-cases, String, [], arith, eq_iff, inl, inr, refl, ◌++◌, ◌∙◌, ◌∷◌, ◌≡◌, ◌≢◌, ◌⊎◌,
}
use uni_llm.Net.{Host, Outcome, Request, Session, err, ok}
use uni_llm.Api.{api_base, no_options, request_of}
use uni_llm.Api.Token.{fetch_api_effect}
use uni_llm.Admin.{AdminPage, AdminReaders, after_me, open_admin}

module _ (h : Host) (read : AdminReaders h) (parse : String → h.Number) where
  -- The request that asks for the user.
  abbrev pub me_request : Session h → Request h.Number
  me_request s = request_of api_base "/me" no_options s.browser

  sent-get_me : (s : Session h) → (Api.get_me h s).1.sent ≡ s.sent ++ me_request s ∷ []
  unfolding Api.get_me
  sent-get_me s = rw fetch_api_effect

  after_me-closed :
      (r : Outcome h.Json × Session h) (p : AdminPage h.Number)
      → ((j : h.Json) → r.0 ≡ ok j → read.role j ≢ "admin")
      → ((after_me h read parse r p).0 ≡ p) × ((after_me h read parse r p).1.sent ≡ r.1.sent)
  unfolding after_me
  after_me-closed (err m, s) p other = (refl, refl)
  after_me-closed (ok j, s) p other = ground (arith, eq_iff (read.role j) "admin", other j refl)

  -- Unless the server says that the user is an administrator, opening the page shows nothing and sends at
  -- most the question who the user is: no request for administration data is made.
  pub open_admin-closed :
      (p : AdminPage h.Number) (s : Session h)
      → ((j : h.Json) → (Api.get_me h s).0 ≡ ok j → read.role j ≢ "admin")
      → ((open_admin h read parse p s).0 ≡ p)
        × (((open_admin h read parse p s).1.sent ≡ s.sent)
            ⊎ ((open_admin h read parse p s).1.sent ≡ s.sent ++ me_request s ∷ []))
  unfolding open_admin
  open_admin-closed p s other =
      let (same, quiet) = after_me-closed (Api.get_me h s) p other in
      elim (Bool-cases (Api.is_logged_in h s)) [
        | inl e ↦ rw e (same, inr (quiet ∙ sent-get_me s))
        | inr e ↦ rw e (refl, inl refl)
      ]
