-- ===== src/Admin/Actions.antt =====
-- The tabs of web/src/app/admin/page.tsx, and what its controls do.
use uni_llm.Prelude.{Bool, List, String, [], false, true, ◌∷◌}
use uni_llm.I18n.Shape.{Messages}
use uni_llm.Net.{Host, Session}
use uni_llm.Admin.{
  AdminPage, AdminReaders, AdminTab, handle_add_key, handle_toggle_model, handle_toggle_provider,
  handle_update_balance, keys, models, overview, providers, users,
}

-- `a === b`
abbrev pub is_admin_tab : AdminTab → AdminTab → Bool
is_admin_tab overview overview = true
is_admin_tab users users = true
is_admin_tab providers providers = true
is_admin_tab models models = true
is_admin_tab keys keys = true
is_admin_tab _ _ = false

pub record TabItem : Type 0 where
  pub key : AdminTab
  pub label : String

abbrev pub tab_items : Messages → List TabItem
tab_items t =
    record { key = overview; label = t.admin.tabs.overview }
    ∷ record { key = users; label = t.admin.tabs.users }
    ∷ record { key = providers; label = t.admin.tabs.providers }
    ∷ record { key = models; label = t.admin.tabs.models }
    ∷ record { key = keys; label = t.admin.tabs.keys }
    ∷ []

-- What the administrator does on the page.
pub data AdminAction (Number : Type 0) : Type 0 where
  show_tab : AdminTab → AdminAction Number
  type_user_id type_delta type_reason type_key_provider type_key_value type_key_rpm :
      String → AdminAction Number
  submit_balance submit_key : AdminAction Number
  switch_provider switch_model : Number → Bool → AdminAction Number

unfoldable pub act :
    (h : Host)
    → AdminReaders h
    → (String → h.Number)
    → AdminAction h.Number
    → AdminPage h.Number
    → Session h
    → AdminPage h.Number × Session h
unfolding handle_update_balance handle_toggle_provider handle_toggle_model handle_add_key
act h read parse (show_tab x) p s = (record p { tab = x }, s)
act h read parse (type_user_id v) p s = (record p { bal_user_id = v }, s)
act h read parse (type_delta v) p s = (record p { bal_delta = v }, s)
act h read parse (type_reason v) p s = (record p { bal_reason = v }, s)
act h read parse (type_key_provider v) p s = (record p { new_key_provider_id = v }, s)
act h read parse (type_key_value v) p s = (record p { new_key_value = v }, s)
act h read parse (type_key_rpm v) p s = (record p { new_key_rpm = v }, s)
act h read parse submit_balance p s = handle_update_balance h read parse p s
act h read parse submit_key p s = handle_add_key h read parse p s
act h read parse (switch_provider id on) p s = handle_toggle_provider h read parse id on p s
act h read parse (switch_model id on) p s = handle_toggle_model h read parse id on p s
