-- ===== src/AdminApi/Calls.antt =====
-- Sequences of calls of web/src/lib/admin-api.ts.
use uni_llm.AdminApi
use uni_llm.Prelude.{Bool, String}
use uni_llm.Net.{Host, Session}
use uni_llm.AdminApi.{ModelUpdate, NewModel}

-- One call of an exported function of the file.
pub data AdminCall (Number : Type 0) : Type 0 where
  get_global_stats get_users get_providers get_models get_provider_keys : AdminCall Number
  update_balance : Number → Number → String → AdminCall Number
  create_provider : String → String → AdminCall Number
  toggle_provider : Number → Bool → AdminCall Number
  create_model : NewModel Number → AdminCall Number
  update_model : ModelUpdate Number → AdminCall Number
  add_provider_key : Number → String → Number → AdminCall Number

module _ (h : Host) where
  unfoldable pub admin_perform : AdminCall h.Number → Session h → Session h
  admin_perform get_global_stats s = (AdminApi.get_global_stats h s).1
  admin_perform get_users s = (AdminApi.get_users h s).1
  admin_perform get_providers s = (AdminApi.get_providers h s).1
  admin_perform get_models s = (AdminApi.get_models h s).1
  admin_perform get_provider_keys s = (AdminApi.get_provider_keys h s).1
  admin_perform (update_balance u d r) s = (AdminApi.update_balance h u d r s).1
  admin_perform (create_provider n b) s = (AdminApi.create_provider h n b s).1
  admin_perform (toggle_provider i a) s = (AdminApi.toggle_provider h i a s).1
  admin_perform (create_model m) s = (AdminApi.create_model h m s).1
  admin_perform (update_model u) s = (AdminApi.update_model h u s).1
  admin_perform (add_provider_key p k r) s = (AdminApi.add_provider_key h p k r s).1
