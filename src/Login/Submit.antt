-- ===== src/Login/Submit.antt =====
-- The outcome of submitting the form of web/src/app/login/page.tsx.
use uni_llm.Prelude.{String, [], false, inl, inr, refl, ◌++◌, ◌∷◌, ◌≡◌, ◌⊎◌}
use uni_llm.Net.{Host, Outcome, Session, err, ok}
use uni_llm.Login.{LoginPage, after_attempt, attempt, handle_submit}

module _ (h : Host) where
  after_attempt-cases :
      (r : Outcome h.Json × Session h) (p : LoginPage)
      → (((j : h.Json) × (r.0 ≡ ok j)
            × ((after_attempt h r p).1.browser.pushed ≡ r.1.browser.pushed ++ "/dashboard" ∷ [])
            × ((after_attempt h r p).0.error ≡ ""))
          ⊎ ((m : String) × (r.0 ≡ err m)
              × ((after_attempt h r p).1 ≡ r.1)
              × ((after_attempt h r p).0.error ≡ m)))
        × ((after_attempt h r p).0.loading ≡ false)
  unfolding after_attempt
  after_attempt-cases (ok j, s) p = (inl (j, refl, refl, refl), refl)
  after_attempt-cases (err m, s) p = (inr (m, refl, refl, refl), refl)

  -- Submitting the form ends in one of two ways: the call returned, the page goes to the dashboard and shows
  -- no error; or the call threw, the page stays, shows the message, and nothing is done beyond the call.
  -- Either way the form is usable again.
  pub handle_submit-cases :
      (p : LoginPage) (s : Session h)
      → (((j : h.Json) × ((attempt h p s).0 ≡ ok j)
            × ((handle_submit h p s).1.browser.pushed
                ≡ (attempt h p s).1.browser.pushed ++ "/dashboard" ∷ [])
            × ((handle_submit h p s).0.error ≡ ""))
          ⊎ ((m : String) × ((attempt h p s).0 ≡ err m)
              × ((handle_submit h p s).1 ≡ (attempt h p s).1)
              × ((handle_submit h p s).0.error ≡ m)))
        × ((handle_submit h p s).0.loading ≡ false)
  unfolding handle_submit
  handle_submit-cases p s = after_attempt-cases (attempt h p s) p
