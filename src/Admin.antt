-- ===== src/Admin.antt =====
-- web/src/app/admin/page.tsx: the administration page. Its gate, the loading of its data, and its
-- handlers. What the page reads of the answers is the parameter `AdminReaders`; `parse` is `Number(text)`.
pub mod Gate
pub mod Arrivals
pub mod Service
pub mod Mirror
pub mod Forms
pub mod Switches
pub mod Actions
pub mod Parts
pub mod Panels
pub mod View
pub mod Controls
use uni_llm.Api
use uni_llm.AdminApi
use uni_llm.Prelude.{
  Bool, List, Option, String, [], if◌then◌else◌, is_empty, none, not, or_else, some, ◌++◌, ◌===◌,
  ◌||◌, ◌∷◌,
}
use uni_llm.Net.{Browser, Host, Outcome, Request, Session, err, ok, push_route}
use uni_llm.Together.{Five, settle_five, start_five}
use uni_llm.Api.{no_options, request_of}
use uni_llm.AdminApi.{admin_base, admin_receive}

pub record Stats (Number : Type 0) : Type 0 where
  pub total_users : Number
  pub total_requests : Number
  pub total_cost : Number
  pub total_tokens : Number
  pub active_keys : Number

pub record User (Number : Type 0) : Type 0 where
  pub id : Number
  pub email : String
  pub name : String
  pub role : String
  pub balance : Number
  pub created_at : String

pub record ProviderInfo (Number : Type 0) : Type 0 where
  pub id : Number
  pub name : String
  pub base_url : String
  pub is_active : Bool

pub record AdminModel (Number : Type 0) : Type 0 where
  pub id : Number
  pub public_name : String
  pub provider_id : Number
  pub upstream_model : String
  pub input_price_per_1m : Number
  pub output_price_per_1m : Number
  pub is_active : Bool
  pub max_tokens : Number

pub record ProviderKeyInfo (Number : Type 0) : Type 0 where
  pub id : Number
  pub provider_id : Number
  pub key_prefix : String
  pub rpm : Number
  pub is_active : Bool

pub data AdminTab : Type 0 where
  overview users providers models keys : AdminTab

-- The members of the answers; `none` stands for a falsy value. `role` is `u.role` of `/me`.
pub record AdminReaders (h : Host) : Type 0 where
  pub role : h.Json → String
  pub stats : h.Json → Stats h.Number
  pub users : h.Json → Option (List (User h.Number))
  pub providers : h.Json → Option (List (ProviderInfo h.Number))
  pub models : h.Json → Option (List (AdminModel h.Number))
  pub keys : h.Json → Option (List (ProviderKeyInfo h.Number))

pub record AdminPage (Number : Type 0) : Type 0 where
  pub tab : AdminTab
  pub stats : Option (Stats Number)
  pub users : List (User Number)
  pub providers : List (ProviderInfo Number)
  pub models : List (AdminModel Number)
  pub provider_keys : List (ProviderKeyInfo Number)
  pub error : String
  pub bal_user_id : String
  pub bal_delta : String
  pub bal_reason : String
  pub new_key_provider_id : String
  pub new_key_value : String
  pub new_key_rpm : String
  -- the texts given to `alert`, and the errors that no handler catches
  pub alerts : List String
  pub unhandled : List String

abbrev pub first_admin : {Number : Type 0} → AdminPage Number
first_admin = record {
  tab = AdminTab.overview;
  stats = none;
  users = [];
  providers = [];
  models = [];
  provider_keys = [];
  error = "";
  bal_user_id = "";
  bal_delta = "";
  bal_reason = "";
  new_key_provider_id = "";
  new_key_value = "";
  new_key_rpm = "60";
  alerts = [];
  unhandled = [];
}

-- The five requests of `loadAll`.
abbrev pub admin_requests : {Number : Type 0} → Browser → Five (Request Number)
admin_requests b = record {
  first = request_of admin_base "/stats" no_options b;
  second = request_of admin_base "/users" no_options b;
  third = request_of admin_base "/providers" no_options b;
  fourth = request_of admin_base "/models" no_options b;
  fifth = request_of admin_base "/provider-keys" no_options b;
}

-- The message of the first of five calls that failed.
unfoldable pub first_error : {A : Type 0} → Five (Outcome A) → Option String
first_error r = elim r.first [
  | err m ↦ some m
  | ok _ ↦ elim r.second [
    | err m ↦ some m
    | ok _ ↦ elim r.third [
      | err m ↦ some m
      | ok _ ↦ elim r.fourth [
        | err m ↦ some m
        | ok _ ↦ elim r.fifth [ err m ↦ some m | ok _ ↦ none ]
      ]
    ]
  ]
]

module _ (h : Host) (read : AdminReaders h) (parse : String → h.Number) where
  abbrev pub member_list : {A : Type 0} → (h.Json → Option (List A)) → Outcome h.Json → List A
  member_list member (ok j) = or_else (member j) []
  member_list member (err _) = []

  abbrev pub stats_of : Outcome h.Json → Option (Stats h.Number)
  stats_of (ok j) = some (read.stats j)
  stats_of (err _) = none

  -- The `try` and `catch` blocks of `loadAll` once all five calls are settled.
  unfoldable pub apply_all : Five (Outcome h.Json) → AdminPage h.Number → AdminPage h.Number
  apply_all r p = elim (first_error r) [
    | some m ↦ record p { error = m }
    | none ↦ record p {
      stats = stats_of r.first;
      users = member_list read.users r.second;
      providers = member_list read.providers r.third;
      models = member_list read.models r.fourth;
      provider_keys = member_list read.keys r.fifth;
    }
  ]

  unfoldable pub load_all : AdminPage h.Number → Session h → AdminPage h.Number × Session h
  load_all p s =
      let (replies, s5) = start_five h admin_requests s in
      let (results, s') = settle_five h (admin_receive h) replies s5 in (apply_all results p, s')

  unfoldable pub after_me :
      Outcome h.Json × Session h → AdminPage h.Number → AdminPage h.Number × Session h
  after_me (err _, s) p = (p, record s { browser = push_route "/login" s.browser })
  after_me (ok u, s) p =
      if not (read.role u === "admin")
      then (p, record s { browser = push_route "/dashboard" s.browser })
      else load_all p s

  -- The first effect: the gate of the page.
  unfoldable pub open_admin : AdminPage h.Number → Session h → AdminPage h.Number × Session h
  open_admin p s =
      if not (Api.is_logged_in h s)
      then (p, record s { browser = push_route "/login" s.browser })
      else after_me (Api.get_me h s) p

  unfoldable pub after_balance :
      Outcome h.Json × Session h → AdminPage h.Number → AdminPage h.Number × Session h
  after_balance (ok _, s) p =
      load_all (record p { bal_user_id = ""; bal_delta = ""; bal_reason = "" }) s
  after_balance (err m, s) p = (record p { alerts = p.alerts ++ m ∷ [] }, s)

  -- `handleUpdateBalance`
  unfoldable pub handle_update_balance :
      AdminPage h.Number → Session h → AdminPage h.Number × Session h
  handle_update_balance p s =
      if is_empty p.bal_user_id || is_empty p.bal_delta
      then (p, s)
      else after_balance
          (AdminApi.update_balance h (parse p.bal_user_id) (parse p.bal_delta) p.bal_reason s) p

  unfoldable pub after_toggle :
      Outcome h.Json × Session h → AdminPage h.Number → AdminPage h.Number × Session h
  after_toggle (ok _, s) p = load_all p s
  after_toggle (err m, s) p = (record p { unhandled = p.unhandled ++ m ∷ [] }, s)

  -- `handleToggleProvider`; it has no `try`.
  unfoldable pub handle_toggle_provider :
      h.Number → Bool → AdminPage h.Number → Session h → AdminPage h.Number × Session h
  handle_toggle_provider id current p s =
      after_toggle (AdminApi.toggle_provider h id (not current) s) p

  -- `handleToggleModel`; it has no `try`.
  unfoldable pub handle_toggle_model :
      h.Number → Bool → AdminPage h.Number → Session h → AdminPage h.Number × Session h
  handle_toggle_model id current p s =
      after_toggle
        (AdminApi.update_model h
          (record {
            id = id;
            input_price_per_1m = none;
            output_price_per_1m = none;
            is_active = some (not current);
            max_tokens = none;
          })
          s)
        p

  unfoldable pub after_key :
      Outcome h.Json × Session h → AdminPage h.Number → AdminPage h.Number × Session h
  after_key (ok _, s) p = load_all (record p { new_key_value = "" }) s
  after_key (err m, s) p = (record p { alerts = p.alerts ++ m ∷ [] }, s)

  -- `handleAddKey`
  unfoldable pub handle_add_key : AdminPage h.Number → Session h → AdminPage h.Number × Session h
  handle_add_key p s =
      if is_empty p.new_key_provider_id || is_empty p.new_key_value
      then (p, s)
      else after_key
          (AdminApi.add_provider_key h (parse p.new_key_provider_id) p.new_key_value
            (parse p.new_key_rpm) s)
          p
