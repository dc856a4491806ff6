-- ===== src/Dashboard.antt =====
-- web/src/app/dashboard/page.tsx: the user's page. Its state, the loading of its data, and the handlers
-- of its keys and its password. What the page reads of the answers is the parameter `Readers`.
pub mod Load
pub mod Arrivals
pub mod Handlers
pub mod Outcomes
pub mod Mirror
pub mod Actions
pub mod Panels
pub mod View
pub mod Controls
use uni_llm.Api
use uni_llm.Prelude.{
  Bool, List, Option, String, [], if◌then◌else◌, is_empty, none, not, or_else, some, trim, ◌++◌,
  ◌∷◌,
}
use uni_llm.Net.{Browser, Host, Outcome, Request, Session, err, ok, push_route}
use uni_llm.I18n.Shape.{Messages}
use uni_llm.Together.{Five, settle_five, start_five}
use uni_llm.Api.{api_base, no_options, receive, request_of}

pub record Summary (Number : Type 0) : Type 0 where
  pub total_requests : Number
  pub total_tokens : Number
  pub total_cost : Number
  pub avg_latency : Number
  pub success_rate : Number
  pub today_cost : Number
  pub balance : Number

pub record ModelStat (Number : Type 0) : Type 0 where
  pub model_name : String
  pub requests : Number
  pub total_tokens : Number
  pub total_cost : Number
  pub avg_latency : Number

pub record ApiKey (Number : Type 0) : Type 0 where
  pub id : Number
  pub name : String
  pub key_prefix : String
  pub scope : String
  pub is_active : Bool
  pub last_used : String
  pub created_at : String

pub record Day (Number : Type 0) : Type 0 where
  pub date : String
  pub requests : Number
  pub tokens : Number
  pub cost : Number

pub record LogEntry (Number : Type 0) : Type 0 where
  pub id : Number
  pub model_name : String
  pub provider : String
  pub prompt_tokens : Number
  pub completion_tokens : Number
  pub total_tokens : Number
  pub cost : Number
  pub latency_ms : Number
  pub status : String
  pub created_at : String

-- The members of the answers; `none` stands for a falsy value.
pub record Readers (h : Host) : Type 0 where
  pub summary : h.Json → Summary h.Number
  pub models : h.Json → Option (List (ModelStat h.Number))
  pub keys : h.Json → Option (List (ApiKey h.Number))
  pub days : h.Json → Option (List (Day h.Number))
  pub logs : h.Json → Option (List (LogEntry h.Number))
  -- `result.key`
  pub key : h.Json → String

pub data Tab : Type 0 where
  overview keys logs settings : Tab

pub record DashboardPage (Number : Type 0) : Type 0 where
  pub summary : Option (Summary Number)
  pub models : List (ModelStat Number)
  pub keys : List (ApiKey Number)
  pub new_key_name : String
  pub new_key_result : String
  pub daily : List (Day Number)
  pub recent_logs : List (LogEntry Number)
  pub tab : Tab
  pub old_pwd : String
  pub new_pwd : String
  pub pwd_msg : String
  -- the texts given to `alert`, and the errors that no handler catches
  pub alerts : List String
  pub unhandled : List String

abbrev pub first_dashboard : {Number : Type 0} → DashboardPage Number
first_dashboard = record {
  summary = none;
  models = [];
  keys = [];
  new_key_name = "";
  new_key_result = "";
  daily = [];
  recent_logs = [];
  tab = overview;
  old_pwd = "";
  new_pwd = "";
  pwd_msg = "";
  alerts = [];
  unhandled = [];
}

-- The five requests of `loadData`.
abbrev pub data_requests : {Number : Type 0} → Browser → Five (Request Number)
data_requests b = record {
  first = request_of api_base "/usage/summary" no_options b;
  second = request_of api_base "/usage/by-model" no_options b;
  third = request_of api_base "/keys" no_options b;
  fourth = request_of api_base "/usage/daily" no_options b;
  fifth = request_of api_base "/usage/recent" no_options b;
}

module _ (h : Host) (read : Readers h) (t : Messages) where
  -- `m.members || []` of an answer that may have been replaced by an empty one in `.catch`.
  abbrev pub list_of : {A : Type 0} → (h.Json → Option (List A)) → Outcome h.Json → List A
  list_of member (ok j) = or_else (member j) []
  list_of member (err _) = []

  -- The `try` and `catch` blocks of `loadData` once all five calls are settled.
  unfoldable pub apply_data :
      Five (Outcome h.Json)
      → DashboardPage h.Number
      → Session h
      → DashboardPage h.Number × Session h
  apply_data r p s = elim r.first [
    | err _ ↦ (p, record s { browser = push_route "/login" s.browser })
    | ok a ↦ elim r.second [
      | err _ ↦ (p, record s { browser = push_route "/login" s.browser })
      | ok b ↦ elim r.third [
        | err _ ↦ (p, record s { browser = push_route "/login" s.browser })
        | ok c ↦ (
          record p {
            summary = some (read.summary a);
            models = or_else (read.models b) [];
            keys = or_else (read.keys c) [];
            daily = list_of read.days r.fourth;
            recent_logs = list_of read.logs r.fifth;
          },
          s,
        )
      ]
    ]
  ]

  unfoldable pub load_data : DashboardPage h.Number → Session h → DashboardPage h.Number × Session h
  load_data p s =
      let (replies, s5) = start_five h data_requests s in
      let (results, s') = settle_five h (receive h) replies s5 in apply_data results p s'

  -- The first effect.
  unfoldable pub open_dashboard :
      DashboardPage h.Number → Session h → DashboardPage h.Number × Session h
  open_dashboard p s =
      let loaded = load_data p s in
      if Api.is_logged_in h s
      then loaded
      else (p, record s { browser = push_route "/login" s.browser })

  unfoldable pub after_create :
      Outcome h.Json × Session h → DashboardPage h.Number → DashboardPage h.Number × Session h
  after_create (ok j, s) p =
      load_data (record p { new_key_result = read.key j; new_key_name = "" }) s
  after_create (err m, s) p = (record p { alerts = p.alerts ++ m ∷ [] }, s)

  -- `handleCreateKey`
  unfoldable pub handle_create_key :
      DashboardPage h.Number → Session h → DashboardPage h.Number × Session h
  handle_create_key p s =
      if is_empty (trim p.new_key_name)
      then (p, s)
      else after_create (Api.create_api_key h p.new_key_name "full" s) p

  unfoldable pub after_delete :
      Outcome h.Json × Session h → DashboardPage h.Number → DashboardPage h.Number × Session h
  after_delete (ok _, s) p = load_data p s
  after_delete (err m, s) p = (record p { unhandled = p.unhandled ++ m ∷ [] }, s)

  -- `handleDeleteKey`, with the user's answer to `confirm`. It has no `try`.
  unfoldable pub handle_delete_key :
      Bool → h.Number → DashboardPage h.Number → Session h → DashboardPage h.Number × Session h
  handle_delete_key confirmed id p s =
      if not confirmed then (p, s) else after_delete (Api.delete_api_key h id s) p

  unfoldable pub after_password :
      Outcome h.Json × Session h → DashboardPage h.Number → DashboardPage h.Number × Session h
  after_password (ok _, s) p =
      (record p { pwd_msg = t.dashboard.password_changed; old_pwd = ""; new_pwd = "" }, s)
  after_password (err m, s) p = (record p { pwd_msg = m }, s)

  -- The handler of the button that updates the password.
  unfoldable pub update_password :
      DashboardPage h.Number → Session h → DashboardPage h.Number × Session h
  update_password p s = after_password (Api.change_password h p.old_pwd p.new_pwd s) p
