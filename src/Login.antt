-- ===== src/Login.antt =====
-- web/src/app/login/page.tsx: signing in and registering.
pub mod Submit
pub mod View
use uni_llm.Api
use uni_llm.Prelude.{Bool, String, false, if◌then◌else◌, not}
use uni_llm.Net.{Host, Outcome, Session, err, ok, push_route}

pub record LoginPage : Type 0 where
  pub is_register : Bool
  pub email : String
  pub password : String
  pub name : String
  pub error : String
  pub loading : Bool

abbrev pub first_login : LoginPage
first_login = record {
  is_register = false;
  email = "";
  password = "";
  name = "";
  error = "";
  loading = false;
}

module _ (h : Host) where
  -- The `try` block up to the `await`.
  unfoldable pub attempt : LoginPage → Session h → Outcome h.Json × Session h
  attempt p s =
      if p.is_register
      then Api.register h p.email p.password p.name s
      else Api.login h p.email p.password s

  -- What follows: the dashboard, or the message; `loading` ends in both cases.
  unfoldable pub after_attempt : Outcome h.Json × Session h → LoginPage → LoginPage × Session h
  after_attempt (ok _, s) p = (
    record p { error = ""; loading = false },
    record s { browser = push_route "/dashboard" s.browser },
  )
  after_attempt (err m, s) p = (record p { error = m; loading = false }, s)

  unfoldable pub handle_submit : LoginPage → Session h → LoginPage × Session h
  handle_submit p s = after_attempt (attempt p s) p

-- The link under the form.
unfoldable pub switch_form : LoginPage → LoginPage
switch_form p = record p { is_register = not p.is_register; error = "" }

-- What the visitor does: typing, sending the form, pressing the link.
pub data Action : Type 0 where
  type_name type_email type_password : String → Action
  submit switch : Action

unfoldable pub act : (h : Host) → Action → LoginPage → Session h → LoginPage × Session h
unfolding handle_submit switch_form
act h (type_name v) p s = (record p { name = v }, s)
act h (type_email v) p s = (record p { email = v }, s)
act h (type_password v) p s = (record p { password = v }, s)
act h submit p s = handle_submit h p s
act h switch p s = (switch_form p, s)
