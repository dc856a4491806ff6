-- ===== src/Header/View.antt =====
-- What web/src/components/SiteHeader.tsx shows, with the bar of web/src/components/PreferencesBar.tsx in it.
use mathlib.Core.List.{append_assoc, append-nil}
use uni_llm.Prelude.{
  Option-cases, Bool-cases, inl, inr, sym, Bool, List, String, [], false, if◌then◌else◌, keep, none,
  refl, some, true, ◌++◌, ◌<+>◌, ◌===◌, ◌∷◌, ◌≡◌,
}
use uni_llm.I18n.Shape.{Messages}
use uni_llm.Double.{Double}
use uni_llm.Markup.{Attr, View, attr, element, nothing, on, say, style, tag, text, when, ◌<&>◌}
use uni_llm.Markup.Clicks.{clicks, clicks-beside, texts}
use uni_llm.Header.{
  Control, HeaderProps, calculator_key, docs_key, link, link_class, logout_button, models_key,
  nav_link_class, playground_key, site_header, nav_link, account_controls,
}

module _ {E : Type 0} (d : Double) (log_out : E) where
  unfoldable pub nav_view : Messages → HeaderProps d.Number → View E
  nav_view t p = tag "div" (attr "className" "flex items-center gap-4" ∷ []) (
      tag "a"
        (attr "href" "/"
          ∷ attr "className" "text-lg font-bold hover:opacity-80 transition-opacity"
          ∷ [])
        (say "UniLLM")
      <&> (when p.admin_badge (
            tag "span"
              (attr "className" "text-xs px-2 py-0.5 rounded font-medium"
                ∷ style (("background", "var(--danger)") ∷ ("color", "#fff") ∷ [])
                ∷ [])
              (say t.admin.badge))
          <&> (tag "a"
                (attr "href" "/models" ∷ attr "className" (link_class p.active_nav models_key) ∷ [])
                (say t.nav.models)
              <&> (tag "a"
                    (attr "href" "/playground"
                      ∷ attr "className" (link_class p.active_nav playground_key)
                      ∷ [])
                    (say t.nav.playground)
                  <&> (tag "a"
                        (attr "href" "/docs"
                          ∷ attr "className" (link_class p.active_nav docs_key)
                          ∷ [])
                        (say t.nav.docs)
                      <&> tag "a"
                          (attr "href" "/calculator"
                            ∷ attr "className" (link_class p.active_nav calculator_key)
                            ∷ [])
                          (say t.nav.calculator))))))

  unfoldable pub balance_view : Messages → HeaderProps d.Number → View E
  balance_view t p = elim p.balance [
    | none ↦ nothing
    | some b ↦
        tag "span" (attr "className" "text-sm text-[var(--muted)]" ∷ [])
          (say t.dashboard.balance <&> (say ": $" <&> say (d.to_fixed 2 b)))
  ]

  unfoldable pub account_view : Messages → Bool → View E
  account_view t logged_in =
      if logged_in
      then tag "a" (attr "href" "/dashboard" ∷ attr "className" nav_link_class ∷ [])
          (say t.nav.dashboard)
        <&> tag "button"
            (attr "type" "button" ∷ on "onClick" log_out ∷ attr "className" nav_link_class ∷ [])
            (say t.nav.logout)
      else tag "a"
          (attr "href" "/login"
            ∷ attr "className" "text-sm px-4 py-1.5 rounded-lg font-medium"
            ∷ style (("background", "var(--primary)") ∷ ("color", "#fff") ∷ [])
            ∷ [])
          (say t.nav.sign_in)

  -- `SiteHeader`, with the node `trailing` of its caller and the bar of preferences.
  unfoldable pub header_view : Messages → HeaderProps d.Number → View E → View E → Bool → View E
  header_view t p trailing preferences logged_in =
      tag "header"
        (attr "className" (
            "border-b px-6 py-3 flex items-center justify-between "
            <+> (if p.sticky then "sticky top-0 z-50" else ""))
          ∷ style (("borderColor", "var(--border)") ∷ ("background", "var(--background)") ∷ [])
          ∷ [])
        (nav_view t p
          <&> tag "div" (attr "className" "flex items-center gap-3" ∷ [])
              (trailing <&> (preferences <&> (balance_view t p <&> account_view t logged_in))))

-- The value of an attribute with a text.
abbrev attr_of : {E : Type 0} → String → List (Attr E) → String
attr_of name [] = ""
attr_of name (attr n v ∷ given) = if n === name then v else attr_of name given
attr_of name (_ ∷ given) = attr_of name given

abbrev joined : List String → String
joined [] = ""
joined (s ∷ []) = s
joined (s ∷ ss) = s <+> joined ss

-- The anchors of a view, from the top to the bottom.
abbrev pub anchors : {E : Type 0} → View E → List Control
anchors nothing = []
anchors (text s v) = anchors v
anchors (element name given inner v) =
    if name === "a"
    then link (attr_of "href" given) (attr_of "className" given) (joined (texts inner)) ∷ anchors v
    else anchors inner ++ anchors v

anchors-beside : {E : Type 0} (v w : View E) → anchors (v <&> w) ≡ anchors v ++ anchors w
anchors-beside nothing w = refl
anchors-beside (text s v) w = anchors-beside v w
anchors-beside (element name given inner v) w = elim (Bool-cases (name === "a")) [
  | inl e ↦ rw (e, anchors-beside v w) refl
  | inr e ↦ rw (e, anchors-beside v w) (sym (append_assoc (anchors inner) (anchors v) (anchors w)))
]

abbrev pub is_link : Control → Bool
is_link (link _ _ _) = true
is_link (logout_button _ _) = false

module _ {E : Type 0} (d : Double) (log_out : E) where
  anchors-nav_view :
      (t : Messages) (p : HeaderProps d.Number) (logged_in : Bool)
      → anchors (nav_view d log_out t p)
        ≡ (site_header d t p logged_in).brand ∷ (site_header d t p logged_in).nav
  unfolding nav_view site_header nav_link
  anchors-nav_view t p logged_in = elim (Bool-cases p.admin_badge) [
    | inl e ↦ rw e refl
    | inr e ↦ rw e refl
  ]

  anchors-account_view :
      (t : Messages) (p : HeaderProps d.Number) (logged_in : Bool)
      → anchors (account_view d log_out t logged_in)
        ≡ keep is_link (site_header d t p logged_in).account
  unfolding account_view site_header account_controls
  anchors-account_view t p false = refl
  anchors-account_view t p true = refl

  anchors-balance_view :
      (t : Messages) (p : HeaderProps d.Number) → anchors (balance_view d log_out t p) ≡ []
  unfolding balance_view
  anchors-balance_view t p = elim (Option-cases p.balance) [
    | inl e ↦ rw e refl
    | inr (b, e) ↦ rw e refl
  ]

  clicks-balance_view :
      (t : Messages) (p : HeaderProps d.Number) → clicks (balance_view d log_out t p) ≡ []
  unfolding balance_view
  clicks-balance_view t p = elim (Option-cases p.balance) [
    | inl e ↦ rw e refl
    | inr (b, e) ↦ rw e refl
  ]

  clicks-nav_view : (t : Messages) (p : HeaderProps d.Number) → clicks (nav_view d log_out t p) ≡ []
  unfolding nav_view
  clicks-nav_view t p = elim (Bool-cases p.admin_badge) [ inl e ↦ rw e refl | inr e ↦ rw e refl ]

  abbrev pub account_clicks : Bool → List E
  account_clicks logged_in = if logged_in then log_out ∷ [] else []

  clicks-account_view :
      (t : Messages) (logged_in : Bool)
      → clicks (account_view d log_out t logged_in) ≡ account_clicks logged_in
  unfolding account_view
  clicks-account_view t false = refl
  clicks-account_view t true = refl

  -- The links of the header are, in this order: the brand, the four pages, those of the caller's node and
  -- of the bar of preferences, and those of the account; the balance has none. What can be pressed is what
  -- the caller's node and the bar offer, and the button that logs out, for a member alone.
  pub header_view_lem :
      (t : Messages) (p : HeaderProps d.Number) (trailing preferences : View E) (logged_in : Bool)
      → (anchors (header_view d log_out t p trailing preferences logged_in)
          ≡ (site_header d t p logged_in).brand ∷ (site_header d t p logged_in).nav
            ++ (anchors trailing
                ++ (anchors preferences ++ keep is_link (site_header d t p logged_in).account)))
        × (clicks (header_view d log_out t p trailing preferences logged_in)
            ≡ clicks trailing ++ (clicks preferences ++ account_clicks logged_in))
  unfolding header_view
  header_view_lem t p trailing preferences logged_in = (
    rw
        (
          append-nil,
          anchors-beside,
          anchors-nav_view t p logged_in,
          append-nil,
          anchors-beside trailing,
          anchors-beside preferences,
          anchors-beside (balance_view d log_out t p),
          anchors-balance_view t p,
          anchors-account_view t p logged_in,
        )
        refl,
    rw
        (
          append-nil,
          clicks-beside,
          clicks-nav_view t p,
          append-nil,
          clicks-beside trailing,
          clicks-beside preferences,
          clicks-beside (balance_view d log_out t p),
          clicks-balance_view t p,
          clicks-account_view t logged_in,
        )
        refl,
  )
