-- ===== src/Header/Account.antt =====
-- What the header of web/src/components/SiteHeader.tsx offers to visitors and to members.
use uni_llm.Api
use uni_llm.Prelude.{
  Bool, List, Option, String, [], ap, arith, false, is_empty, keep, lookup-remove_self, none, refl,
  some, true, ◌===◌, ◌∷◌, ◌≡◌,
}
use uni_llm.Net.{Host, Session, ok}
use uni_llm.I18n.Shape.{Messages}
use uni_llm.Double.{Double}
use uni_llm.Header.{
  Control, HeaderProps, NavKey, account_controls, active_link_class, calculator_key, docs_key, link,
  link_class, logout_button, models_key, mounted_header, nav_link, nav_link_class, playground_key,
  press, site_header,
}
use uni_llm.Api.Trace.{login_then_authorized}
use uni_llm.Api.{no_options, stored_token}

abbrev pub is_highlighted : Control → Bool
is_highlighted (link _ style _) = style === active_link_class
is_highlighted (logout_button style _) = style === active_link_class

abbrev pub nav_links : Messages → Option NavKey → List Control
nav_links t a =
    nav_link t a models_key
    ∷ nav_link t a playground_key
    ∷ nav_link t a docs_key
    ∷ nav_link t a calculator_key
    ∷ []

highlighted_links :
    (t : Messages) (a : Option NavKey)
    → keep is_highlighted (nav_links t a)
      ≡ elim a [ none ↦ [] | some k ↦ nav_link t (some k) k ∷ [] ]
unfolding nav_link link_class
highlighted_links t none = refl
highlighted_links t (some models_key) = refl
highlighted_links t (some playground_key) = refl
highlighted_links t (some docs_key) = refl
highlighted_links t (some calculator_key) = refl

-- The header highlights the link of the active page and no other; without an active page, none.
pub highlighted :
    (d : Double) (t : Messages) (p : HeaderProps d.Number) (logged_in : Bool)
    → keep is_highlighted (site_header d t p logged_in).nav
      ≡ elim p.active_nav [ none ↦ [] | some k ↦ nav_link t (some k) k ∷ [] ]
unfolding site_header
highlighted d t p logged_in = highlighted_links t p.active_nav

module _ (d : Double) (h : Host) where
  logout-token : (s : Session h) → stored_token (Api.logout h s).browser ≡ none
  unfolding Api.logout stored_token
  logout-token s = rw lookup-remove_self (ground arith)

  is_logged_in-none : (s : Session h) → stored_token s.browser ≡ none → Api.is_logged_in h s ≡ false
  unfolding Api.is_logged_in
  is_logged_in-none s e = rw (e, Api.is_logged_in)

  is_logged_in-some :
      (s : Session h) (t : String) → stored_token s.browser ≡ some t → Api.is_logged_in h s ≡ true
  unfolding Api.is_logged_in
  is_logged_in-some s t e = rw (e, Api.is_logged_in)

  -- After a login that returns a token the header offers the dashboard and the button that logs out; pressing
  -- that button makes it offer signing in instead, and nothing else.
  pub login_then_logout :
      (t : Messages) (p : HeaderProps d.Number) (email password token : String) (s : Session h)
      (j : h.Json)
      → (Api.login h email password s).0 ≡ ok j
      → h.token_of j ≡ token
      → is_empty token ≡ false
      → ((mounted_header d h t p (Api.login h email password s).1).account
          ≡ link "/dashboard" nav_link_class t.nav.dashboard
            ∷ logout_button nav_link_class t.nav.logout
            ∷ [])
        × ((mounted_header d h t p (
              press d h
                (logout_button nav_link_class t.nav.logout)
                (Api.login h email password s).1)).account
            ≡ account_controls t false)
  unfolding mounted_header site_header press
  login_then_logout t p email password token s j e f n =
      let inside = (Api.login h email password s).1 in
      let kept = (login_then_authorized h email password "" no_options s j token e f n).0 in
      (
        rw (is_logged_in-some inside token kept) (unfold account_controls in refl),
        ap (λ b. account_controls t b)
            (is_logged_in-none (Api.logout h inside) (logout-token inside)),
      )
