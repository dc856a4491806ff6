-- ===== src/Playground/Controls.antt =====
-- What can be pressed on the chat page of web/src/app/playground/page.tsx.
use mathlib.Core.List.{append-nil}
use uni_llm.Prelude.{[], arith, if◌then◌else◌, is_nil, not, refl, ◌∙◌, ◌∷◌, ◌≡◌}
use uni_llm.I18n.Shape.{Messages}
use uni_llm.Markup.Clicks.{
  clicks, clicks-beside, clicks-beside_none, clicks-each_none, clicks-if_none,
}
use uni_llm.Playground.{Page, clear, is_blocked, send}
use uni_llm.Playground.View.{chat_view, composer, output, settings, system_field}

clicks-settings : (t : Messages) (p : Page) → clicks (settings t p) ≡ clear ∷ []
unfolding settings
clicks-settings t p =
    rw (clicks-if_none (not (is_nil p.models)) _ _ (clicks-each_none p.models _ (λ m. refl)) refl)
      refl

clicks-system_field : (t : Messages) (p : Page) → clicks (system_field t p) ≡ []
unfolding system_field
clicks-system_field t p = refl

clicks-output : (t : Messages) (p : Page) → clicks (output t p) ≡ []
unfolding output
clicks-output t p = append-nil _ ∙ search (clicks-beside_none, clicks-if_none, clicks-each_none)

clicks-composer :
    (t : Messages) (p : Page) → clicks (composer t p) ≡ (if is_blocked p then [] else send ∷ [])
unfolding composer is_blocked
clicks-composer t p = ground arith

-- On the chat page the button that clears the dialogue can be pressed at any time, and the button that
-- sends exactly when a press would send: the condition that disables it is the guard of `handleSend`.
-- Nothing else below the header acts on a click.
pub clicks-chat_view :
    (t : Messages) (p : Page)
    → clicks (chat_view t p) ≡ clear ∷ (if is_blocked p then [] else send ∷ [])
unfolding chat_view
clicks-chat_view t p = simp (
  clicks-beside, clicks-settings, clicks-system_field, clicks-output, clicks-composer, append-nil,
)
