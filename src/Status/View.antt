-- ===== src/Status/View.antt =====
-- What the status page of web/src/app/status/page.tsx shows, which has no controls: its events `E` are arbitrary.
-- `sort` reorders the list of the answer itself, which shows the same list at the next render.
use uni_llm.Prelude.{
  Bool, Option, String, [], false, if◌then◌else◌, is_empty, is_nil, none, some, true, truthy, ◌&&◌,
  ◌∷◌,
}
use uni_llm.I18n.Shape.{Messages}
use uni_llm.Markup.{View, attr, each, nothing, say, style, tag, when, ◌<&>◌}
use uni_llm.Status.{
  ProviderHealth, StatusData, StatusPage, circuit_badge, headline, sort_providers, status_bg,
  status_color,
}

abbrev is_absent : {A : Type 0} → Option A → Bool
is_absent none = true
is_absent (some x) = false

-- `comes_after a b` is `a.localeCompare(b) > 0`; `to_upper` is `toUpperCase`; `clock` and `time_of_day` are
-- `toLocaleTimeString`, of a date and of the date that a text is.
module _ (E Number Time : Type 0) (comes_after : String → String → Bool)
    (to_upper : String → String) (clock : Time → String) (time_of_day : String → String) where
  unfoldable pub provider_card : Messages → ProviderHealth Number → View E
  provider_card t x =
      tag "div"
        (attr "className" "rounded-lg p-4 flex items-center justify-between"
          ∷ style (("background", "var(--card)") ∷ ("border", "1px solid var(--border)") ∷ [])
          ∷ [])
        ((tag "div" (attr "className" "flex items-center gap-4" ∷ []) (
            (tag "div"
              (attr "className" "w-3 h-3 rounded-full"
                ∷ style (("background", status_color x.status) ∷ [])
                ∷ [])
              nothing)
            <&> (tag "div" [] (
                (tag "div" (attr "className" "font-medium capitalize" ∷ []) (say x.name))
                <&> (tag "div" (attr "className" "text-[var(--muted)] text-sm" ∷ [])
                    (say (if truthy x.checked_at then time_of_day x.checked_at else "-")))))))
          <&> (tag "div" (attr "className" "flex items-center gap-4" ∷ []) (
              (tag "span"
                (attr "className" "px-2 py-1 rounded text-xs font-medium"
                  ∷ style (
                      ("background", (circuit_badge x.circuit).bg)
                      ∷ ("color", (circuit_badge x.circuit).color)
                      ∷ [])
                  ∷ [])
                ((say t.status.circuit_label) <&> (say ": ") <&> (say x.circuit)))
              <&> (tag "span"
                  (attr "className" "font-medium text-sm"
                    ∷ style (("color", status_color x.status) ∷ [])
                    ∷ [])
                  (say (to_upper x.status))))))

  unfoldable pub provider_list : Messages → StatusData Number → View E
  provider_list t s = tag "div" (attr "className" "space-y-4" ∷ []) (
      (tag "h2" (attr "className" "text-xl font-semibold mb-4" ∷ []) (say t.status.providers))
      <&> (if (is_nil s.providers)
          then tag "p" (attr "className" "text-sm text-[var(--muted)]" ∷ []) (say t.status.no_data)
          else each (sort_providers comes_after s.providers) (λ x. provider_card t x)))

  unfoldable pub updated_line : Messages → Time → View E
  updated_line t now =
      tag "div" (attr "className" "text-[var(--muted)] text-sm mt-2" ∷ [])
        ((say t.status.last_updated) <&> (say ": ") <&> (say (clock now)))

  unfoldable pub summary_box : Messages → StatusPage Number Time → StatusData Number → View E
  summary_box t p s =
      tag "div"
        (attr "className" "rounded-xl p-6 mb-8 text-center"
          ∷ style (("background", status_bg s.status) ∷ ("border", "1px solid var(--border)") ∷ [])
          ∷ [])
        ((tag "div"
            (attr "className" "text-3xl font-bold"
              ∷ style (("color", status_color s.status) ∷ [])
              ∷ [])
            (say (headline t s)))
          <&> (elim p.last_updated [ none ↦ nothing | some now ↦ updated_line t now ]))

  unfoldable pub status_view : Messages → StatusPage Number Time → View E
  status_view t p =
      tag "div"
        (attr "className" "min-h-screen" ∷ style (("background", "var(--background)") ∷ []) ∷ [])
        ((tag "SiteHeader" [] nothing)
          <&> (tag "div" (attr "className" "max-w-4xl mx-auto px-6 py-12" ∷ []) (
              (tag "div" (attr "className" "text-center mb-12" ∷ []) (
                (tag "h1" (attr "className" "text-4xl font-bold mb-2" ∷ []) (say t.status.title))
                <&> (tag "p" (attr "className" "text-[var(--muted)]" ∷ [])
                    (say t.status.subtitle))))
              <&> (when (truthy p.error) (
                  tag "div"
                    (attr "className" "rounded-lg p-4 mb-8 text-center text-sm"
                      ∷ style (
                          ("background", "rgba(239, 68, 68, 0.1)")
                          ∷ ("border", "1px solid var(--danger)")
                          ∷ ("color", "var(--danger)")
                          ∷ [])
                      ∷ [])
                    (say p.error)))
              <&> (elim p.content [
                | none ↦ nothing
                | some s ↦
                    (summary_box t p s)
                    <&> (provider_list t s)
                    <&> (tag "div"
                        (attr "className" "mt-8 text-center text-[var(--muted)] text-sm" ∷ [])
                        (say t.status.auto_refresh))
              ])
              <&> (when ((is_absent p.content) && (is_empty p.error)) (
                  tag "div" (attr "className" "text-center text-[var(--muted)]" ∷ [])
                    (say t.common.loading))))))
