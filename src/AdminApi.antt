-- ===== src/AdminApi.antt =====
-- web/src/lib/admin-api.ts: the client of the admin API, one function for each function of the file.
pub mod Agree
pub mod Calls
use uni_llm.Prelude.{Bool, Option, String, [], if◌then◌else◌, none, some, ◌++◌, ◌==◌, ◌∷◌}
use uni_llm.Net.{
  Body, Host, Options, Outcome, Reply, Session, Value, err, fetch, flag, is_ok_status, number,
  rejected, response, str,
}
use uni_llm.Api.{body_of, failure, no_options, request_of, send_json, sign_off}

abbrev pub admin_base : String
admin_base = "/api/admin"

-- The argument of `createModel`.
pub record NewModel (Number : Type 0) : Type 0 where
  pub public_name : String
  pub provider_id : Number
  pub upstream_model : String
  pub input_price_per_1m : Number
  pub output_price_per_1m : Number
  pub max_tokens : Number

-- The argument of `updateModel`, with its optional members.
pub record ModelUpdate (Number : Type 0) : Type 0 where
  pub id : Number
  pub input_price_per_1m : Option Number
  pub output_price_per_1m : Option Number
  pub is_active : Option Bool
  pub max_tokens : Option Number

-- `JSON.stringify` leaves out a member that is undefined.
abbrev member : {A Number : Type 0} → String → (A → Value Number) → Option A → Body Number
member k f none = []
member k f (some a) = (k, f a) ∷ []

abbrev pub model_body : {Number : Type 0} → NewModel Number → Body Number
model_body m =
    ("public_name", str m.public_name)
    ∷ ("provider_id", number m.provider_id)
    ∷ ("upstream_model", str m.upstream_model)
    ∷ ("input_price_per_1m", number m.input_price_per_1m)
    ∷ ("output_price_per_1m", number m.output_price_per_1m)
    ∷ ("max_tokens", number m.max_tokens)
    ∷ []

abbrev pub update_body : {Number : Type 0} → ModelUpdate Number → Body Number
update_body u =
    ("id", number u.id)
    ∷ (member "input_price_per_1m" number u.input_price_per_1m
        ++ (member "output_price_per_1m" number u.output_price_per_1m
            ++ (member "is_active" flag u.is_active ++ member "max_tokens" number u.max_tokens)))

module _ (h : Host) where
  open h use {Json, Number}

  -- `adminFetch` after the response has come.
  unfoldable pub admin_receive : Reply Json → Session h → Outcome Json × Session h
  unfolding sign_off failure body_of
  admin_receive (rejected m) s = (err m, s)
  admin_receive (response status p) s =
      if status == 401
      then (err "Unauthorized", record s { browser = sign_off s.browser })
      else if status == 403
      then (err "Admin access required", s)
      else if is_ok_status status
      then (body_of h p, s)
      else (err (failure h status p), s)

  unfoldable pub admin_fetch : String → Options Number → Session h → Outcome Json × Session h
  admin_fetch path o s =
      let (reply, s') = fetch h (request_of admin_base path o s.browser) s in admin_receive reply s'

  unfoldable pub get_global_stats : Session h → Outcome Json × Session h
  get_global_stats = admin_fetch "/stats" no_options

  unfoldable pub get_users : Session h → Outcome Json × Session h
  get_users = admin_fetch "/users" no_options

  unfoldable pub update_balance : Number → Number → String → Session h → Outcome Json × Session h
  update_balance user_id delta reason = admin_fetch "/users/balance" (
      send_json "POST"
        (("user_id", number user_id) ∷ ("delta", number delta) ∷ ("reason", str reason) ∷ []))

  unfoldable pub get_providers : Session h → Outcome Json × Session h
  get_providers = admin_fetch "/providers" no_options

  unfoldable pub create_provider : String → String → Session h → Outcome Json × Session h
  create_provider name base_url =
      admin_fetch "/providers"
        (send_json "POST" (("name", str name) ∷ ("base_url", str base_url) ∷ []))

  unfoldable pub toggle_provider : Number → Bool → Session h → Outcome Json × Session h
  toggle_provider id is_active =
      admin_fetch "/providers/toggle"
        (send_json "PUT" (("id", number id) ∷ ("is_active", flag is_active) ∷ []))

  unfoldable pub get_models : Session h → Outcome Json × Session h
  get_models = admin_fetch "/models" no_options

  unfoldable pub create_model : NewModel Number → Session h → Outcome Json × Session h
  create_model model = admin_fetch "/models" (send_json "POST" (model_body model))

  unfoldable pub update_model : ModelUpdate Number → Session h → Outcome Json × Session h
  update_model updates = admin_fetch "/models" (send_json "PUT" (update_body updates))

  unfoldable pub get_provider_keys : Session h → Outcome Json × Session h
  get_provider_keys = admin_fetch "/provider-keys" no_options

  unfoldable pub add_provider_key : Number → String → Number → Session h → Outcome Json × Session h
  add_provider_key provider_id key_value rpm = admin_fetch "/provider-keys" (
      send_json "POST" (
        ("provider_id", number provider_id)
        ∷ ("key_value", str key_value)
        ∷ ("rpm", number rpm)
        ∷ []))
