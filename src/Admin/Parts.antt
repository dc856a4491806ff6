-- ===== src/Admin/Parts.antt =====
-- The small components of web/src/app/admin/page.tsx, for a page with the events `E`.
use uni_llm.Prelude.{Bool, String, [], if◌then◌else◌, ◌∷◌}
use uni_llm.I18n.Shape.{Messages}
use uni_llm.Markup.{View, attr, nothing, on_value, say, style, tag, ◌<&>◌}

module _ {E : Type 0} where
  unfoldable pub card : String → String → View E
  card label value =
      tag "div"
        (attr "className" "rounded-xl p-4"
          ∷ style (("background", "var(--card)") ∷ ("border", "1px solid var(--border)") ∷ [])
          ∷ [])
        ((tag "div" (attr "className" "text-xs text-[var(--muted)] mb-1" ∷ []) (say label))
          <&> (tag "div" (attr "className" "text-xl font-bold" ∷ []) (say value)))

  unfoldable pub panel : String → View E → View E
  panel title children =
      tag "div"
        (attr "className" "rounded-xl p-5"
          ∷ style (("background", "var(--card)") ∷ ("border", "1px solid var(--border)") ∷ [])
          ∷ [])
        ((tag "h3" (attr "className" "text-sm font-semibold mb-4 text-[var(--muted)]" ∷ [])
            (say title))
          <&> children)

  unfoldable pub status_badge : Messages → Bool → View E
  status_badge t active =
      tag "span"
        (attr "className" "text-xs px-1.5 py-0.5 rounded"
          ∷ style (
              ("background", (if active then "rgba(34,197,94,0.15)" else "rgba(239,68,68,0.15)"))
              ∷ ("color", (if active then "var(--success)" else "var(--danger)"))
              ∷ [])
          ∷ [])
        (say (if active then t.common.active else t.common.disabled))

  unfoldable pub input_field : String → String → (String → E) → String → String → View E
  input_field label value on_change placeholder width = tag "div" (attr "className" width ∷ []) (
      (tag "label" (attr "className" "block text-xs text-[var(--muted)] mb-1" ∷ []) (say label))
      <&> (tag "input"
          (attr "value" value
            ∷ on_value "onChange" on_change
            ∷ attr "placeholder" placeholder
            ∷ attr "className" "w-full px-3 py-2 rounded-lg text-sm outline-none"
            ∷ style
                (("background", "var(--background)") ∷ ("border", "1px solid var(--border)") ∷ [])
            ∷ [])
          nothing))
