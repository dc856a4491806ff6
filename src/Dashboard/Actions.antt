-- ===== src/Dashboard/Actions.antt =====
-- The tabs of web/src/app/dashboard/page.tsx, and what its controls do.
use uni_llm.Prelude.{Bool, List, String, [], false, true, ◌∷◌}
use uni_llm.I18n.Shape.{Messages}
use uni_llm.Net.{Host, Session}
use uni_llm.Dashboard.{
  DashboardPage, Readers, Tab, handle_create_key, handle_delete_key, keys, logs, overview, settings,
  update_password,
}

-- The tabs, in their order.
abbrev pub tabs : List Tab
tabs = overview ∷ logs ∷ keys ∷ settings ∷ []

-- `a === b`
abbrev pub is_tab : Tab → Tab → Bool
is_tab overview overview = true
is_tab keys keys = true
is_tab logs logs = true
is_tab settings settings = true
is_tab _ _ = false

-- What the user does on the page.
pub data Action (Number : Type 0) : Type 0 where
  show_tab : Tab → Action Number
  type_key_name type_old type_new : String → Action Number
  create_key submit_password : Action Number
  delete_key : Number → Action Number

-- `confirmed` is the answer to `confirm`, if it is asked.
unfoldable pub act :
    (h : Host)
    → Readers h
    → Messages
    → Bool
    → Action h.Number
    → DashboardPage h.Number
    → Session h
    → DashboardPage h.Number × Session h
unfolding handle_create_key handle_delete_key update_password
act h read t confirmed (show_tab x) p s = (record p { tab = x }, s)
act h read t confirmed (type_key_name v) p s = (record p { new_key_name = v }, s)
act h read t confirmed (type_old v) p s = (record p { old_pwd = v }, s)
act h read t confirmed (type_new v) p s = (record p { new_pwd = v }, s)
act h read t confirmed create_key p s = handle_create_key h read t p s
act h read t confirmed submit_password p s = update_password h read t p s
act h read t confirmed (delete_key id) p s = handle_delete_key h read t confirmed id p s
