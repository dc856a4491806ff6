-- ===== src/Header.antt =====
-- web/src/components/SiteHeader.tsx: what the header offers, and what its controls do. The markup,
-- with the node `trailing` and the colours, is in Header/View.
pub mod Account
pub mod View
use uni_llm.Api
use uni_llm.Prelude.{
  Bool, List, Option, String, [], false, if◌then◌else◌, none, some, true, ◌<+>◌, ◌∷◌,
}
use uni_llm.Net.{Host, Session, go_to}
use uni_llm.I18n.Shape.{Messages}
use uni_llm.Double.{Double}

pub data NavKey : Type 0 where
  models_key playground_key docs_key calculator_key : NavKey

-- `activeNav === key`
abbrev pub is_key : NavKey → Option NavKey → Bool
is_key k none = false
is_key models_key (some models_key) = true
is_key playground_key (some playground_key) = true
is_key docs_key (some docs_key) = true
is_key calculator_key (some calculator_key) = true
is_key _ (some _) = false

abbrev pub nav_link_class : String
nav_link_class = "text-sm text-[var(--muted)] hover:text-[var(--foreground)] transition-colors"

abbrev pub active_link_class : String
active_link_class = "text-sm text-[var(--foreground)] font-medium"

unfoldable pub link_class : Option NavKey → NavKey → String
link_class active k = if is_key k active then active_link_class else nav_link_class

-- `SiteHeaderProps`, with `null` for no balance.
pub record HeaderProps (Number : Type 0) : Type 0 where
  pub active_nav : Option NavKey
  pub sticky : Bool
  pub balance : Option Number
  pub admin_badge : Bool

-- An anchor with its address, or the button that logs out.
pub data Control : Type 0 where
  link : (href style label : String) → Control
  logout_button : (style label : String) → Control

pub record HeaderView : Type 0 where
  pub style : String
  pub brand : Control
  pub badge : Option String
  pub nav : List Control
  pub balance : Option String
  pub account : List Control

unfoldable pub account_controls : Messages → Bool → List Control
account_controls t logged_in =
    if logged_in
    then link "/dashboard" nav_link_class t.nav.dashboard
      ∷ logout_button nav_link_class t.nav.logout
      ∷ []
    else link "/login" "text-sm px-4 py-1.5 rounded-lg font-medium" t.nav.sign_in ∷ []

unfoldable pub nav_link : Messages → Option NavKey → NavKey → Control
unfolding link_class
nav_link t active models_key = link "/models" (link_class active models_key) t.nav.models
nav_link t active playground_key =
    link "/playground" (link_class active playground_key) t.nav.playground
nav_link t active docs_key = link "/docs" (link_class active docs_key) t.nav.docs
nav_link t active calculator_key =
    link "/calculator" (link_class active calculator_key) t.nav.calculator

module _ (d : Double) where
  unfoldable pub site_header : Messages → HeaderProps d.Number → Bool → HeaderView
  site_header t p logged_in = record {
    style =
        "border-b px-6 py-3 flex items-center justify-between "
        <+> (if p.sticky then "sticky top-0 z-50" else "");
    brand = link "/" "text-lg font-bold hover:opacity-80 transition-opacity" "UniLLM";
    badge = if p.admin_badge then some t.admin.badge else none;
    nav =
        nav_link t p.active_nav models_key
        ∷ nav_link t p.active_nav playground_key
        ∷ nav_link t p.active_nav docs_key
        ∷ nav_link t p.active_nav calculator_key
        ∷ [];
    balance = elim p.balance [
      | none ↦ none
      | some b ↦ some (t.dashboard.balance <+> (": $" <+> d.to_fixed 2 b))
    ];
    account = account_controls t logged_in;
  }

  module _ (h : Host) where
    -- The header after its effect, `setLoggedIn(isLoggedIn())`.
    unfoldable pub mounted_header : Messages → HeaderProps d.Number → Session h → HeaderView
    mounted_header t p s = site_header t p (Api.is_logged_in h s)

    -- A click.
    unfoldable pub press : Control → Session h → Session h
    press (link href _ _) s = record s { browser = go_to href s.browser }
    press (logout_button _ _) s = Api.logout h s
