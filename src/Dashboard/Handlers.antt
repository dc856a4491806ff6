-- ===== src/Dashboard/Handlers.antt =====
-- The handlers of web/src/app/dashboard/page.tsx.
use uni_llm.Api
use uni_llm.Prelude.{String, [], arith, false, inl, inr, is_empty, refl, trim, ◌++◌, ◌∷◌, ◌≡◌, ◌⊎◌}
use uni_llm.Net.{Host, Outcome, Session, err, ok}
use uni_llm.I18n.Shape.{Messages}
use uni_llm.Together.{Five}
use uni_llm.Dashboard.{
  DashboardPage, Readers, after_create, apply_data, handle_create_key, load_data,
}

module _ (h : Host) (read : Readers h) (t : Messages) where
  result-apply_data :
      (r : Five (Outcome h.Json)) (p : DashboardPage h.Number) (s : Session h)
      → ((apply_data h read t r p s).0.new_key_result ≡ p.new_key_result)
        × ((apply_data h read t r p s).0.new_key_name ≡ p.new_key_name)
        × ((apply_data h read t r p s).0.alerts ≡ p.alerts)
  unfolding apply_data
  result-apply_data r p s = (ground arith, ground arith, ground arith)

  result-load_data :
      (p : DashboardPage h.Number) (s : Session h)
      → ((load_data h read t p s).0.new_key_result ≡ p.new_key_result)
        × ((load_data h read t p s).0.new_key_name ≡ p.new_key_name)
        × ((load_data h read t p s).0.alerts ≡ p.alerts)
  unfolding load_data
  result-load_data p s = result-apply_data _ p _

  after_create_lem :
      (r : Outcome h.Json × Session h) (p : DashboardPage h.Number)
      → ((j : h.Json) × (r.0 ≡ ok j)
          × ((after_create h read t r p).0.new_key_result ≡ read.key j)
          × ((after_create h read t r p).0.new_key_name ≡ ""))
        ⊎ ((m : String) × (r.0 ≡ err m)
            × (after_create h read t r p ≡ (record p { alerts = p.alerts ++ m ∷ [] }, r.1)))
  unfolding after_create
  after_create_lem (ok j, s) p =
      let kept = result-load_data (record p { new_key_result = read.key j; new_key_name = "" }) s in
      inl (j, refl, kept.0, kept.1)
  after_create_lem (err m, s) p = inr (m, refl, refl)

  -- Creating a key with a name that is not blank either succeeds, and then the new key is on the page, through
  -- the reload that follows, however that ends, with the name field empty; or it fails, and then the page
  -- raises one alert with the error and changes nothing else.
  pub handle_create_key_lem :
      (p : DashboardPage h.Number) (s : Session h)
      → is_empty (trim p.new_key_name) ≡ false
      → ((j : h.Json) × ((Api.create_api_key h p.new_key_name "full" s).0 ≡ ok j)
          × ((handle_create_key h read t p s).0.new_key_result ≡ read.key j)
          × ((handle_create_key h read t p s).0.new_key_name ≡ ""))
        ⊎ ((m : String) × ((Api.create_api_key h p.new_key_name "full" s).0 ≡ err m)
            × (handle_create_key h read t p s ≡ (
              record p { alerts = p.alerts ++ m ∷ [] },
              (Api.create_api_key h p.new_key_name "full" s).1,
            )))
  unfolding handle_create_key
  handle_create_key_lem p s named =
      rw named (after_create_lem (Api.create_api_key h p.new_key_name "full" s) p)
