-- ===== src/Admin/Forms.antt =====
-- The forms and switches of web/src/app/admin/page.tsx.
use uni_llm.AdminApi
use uni_llm.Prelude.{Option-cases, String, [], false, inl, inr, is_empty, refl, ◌++◌, ◌∷◌, ◌≡◌, ◌⊎◌}
use uni_llm.Net.{Host, Outcome, Session, err, ok}
use uni_llm.Admin.{
  AdminPage, AdminReaders, after_balance, apply_all, first_error, handle_update_balance, load_all,
}
use uni_llm.Together.{Five}

module _ (h : Host) (read : AdminReaders h) (parse : String → h.Number) where
  -- The form for a balance, emptied.
  pub record IsCleared (p : AdminPage h.Number) : Type 0 where
    pub user : p.bal_user_id ≡ ""
    pub amount : p.bal_delta ≡ ""
    pub reason : p.bal_reason ≡ ""

  apply_all-IsCleared :
      (r : Five (Outcome h.Json)) (p : AdminPage h.Number)
      → IsCleared p
      → IsCleared (apply_all h read parse r p)
  unfolding apply_all
  apply_all-IsCleared r p c = elim (Option-cases (first_error r)) [
    | inl e ↦ rw (e, apply_all) (record { user = c.user; amount = c.amount; reason = c.reason })
    | inr (m, e) ↦
        rw (e, apply_all) (record { user = c.user; amount = c.amount; reason = c.reason })
  ]

  after_balance_lem :
      (r : Outcome h.Json × Session h) (p : AdminPage h.Number)
      → ((j : h.Json) × (r.0 ≡ ok j) × IsCleared (after_balance h read parse r p).0)
        ⊎ ((m : String) × (r.0 ≡ err m)
            × (after_balance h read parse r p ≡ (record p { alerts = p.alerts ++ m ∷ [] }, r.1)))
  unfolding after_balance load_all
  after_balance_lem (ok j, s) p =
      inl (j, refl, apply_all-IsCleared _ _ (record { user = refl; amount = refl; reason = refl }))
  after_balance_lem (err m, s) p = inr (m, refl, refl)

  -- Booking an amount with both fields filled either succeeds, and then the form is empty, also after the
  -- reload; or it fails, and then the page raises one alert with the error and keeps the form and all its data.
  pub handle_update_balance_lem :
      (p : AdminPage h.Number) (s : Session h)
      → is_empty p.bal_user_id ≡ false
      → is_empty p.bal_delta ≡ false
      → ((j : h.Json) × ((AdminApi.update_balance h
              (parse p.bal_user_id)
              (parse p.bal_delta)
              p.bal_reason
              s).0
            ≡ ok j)
          × IsCleared (handle_update_balance h read parse p s).0)
        ⊎ ((m : String) × ((AdminApi.update_balance h
                (parse p.bal_user_id)
                (parse p.bal_delta)
                p.bal_reason
                s).0
              ≡ err m)
            × (handle_update_balance h read parse p s ≡ (
              record p { alerts = p.alerts ++ m ∷ [] },
              (AdminApi.update_balance h
                  (parse p.bal_user_id)
                  (parse p.bal_delta)
                  p.bal_reason
                  s).1,
            )))
  unfolding handle_update_balance
  handle_update_balance_lem p s user amount =
      rw (user, amount)
        (after_balance_lem
          (AdminApi.update_balance h (parse p.bal_user_id) (parse p.bal_delta) p.bal_reason s) p)
