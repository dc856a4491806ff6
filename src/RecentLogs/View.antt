-- ===== src/RecentLogs/View.antt =====
-- The markup of web/src/components/RecentLogs.tsx, for a page with the events `E`.
use uni_llm.Prelude.{List, String, [], if◌then◌else◌, is_nil, ◌===◌, ◌∷◌}
use uni_llm.I18n.Shape.{Messages}
use uni_llm.Markup.{View, attr, each, say, style, tag, ◌<&>◌}
use uni_llm.Double.{Double}
use uni_llm.Dashboard.{LogEntry}

-- `number_text` is the text that a number is shown as, `date_text` the local form of a date.
module _ {E : Type 0} (d : Double) (number_text : d.Number → String)
    (date_text : String → String) where
  unfoldable pub log_rows : Messages → List (LogEntry d.Number) → View E
  log_rows t entries = tag "div" (attr "className" "overflow-x-auto" ∷ []) (
      tag "table" (attr "className" "w-full text-sm" ∷ []) (
        (tag "thead" [] (
          tag "tr" (attr "className" "text-left text-[var(--muted)]" ∷ []) (
            (tag "th" (attr "className" "pb-3" ∷ []) (say t.logs.col_time))
            <&> (tag "th" (attr "className" "pb-3" ∷ []) (say t.logs.col_model))
            <&> (tag "th" (attr "className" "pb-3 text-right" ∷ []) (say t.logs.col_tokens))
            <&> (tag "th" (attr "className" "pb-3 text-right" ∷ []) (say t.logs.col_cost))
            <&> (tag "th" (attr "className" "pb-3 text-right" ∷ []) (say t.logs.col_latency))
            <&> (tag "th" (attr "className" "pb-3 text-right" ∷ []) (say t.logs.col_status)))))
        <&> (tag "tbody" [] (
            each entries (λ log.
              tag "tr"
                (attr "className" "border-t" ∷ style (("borderColor", "var(--border)") ∷ []) ∷ [])
                ((tag "td"
                    (attr "className" "py-2.5 text-[var(--muted)] text-xs whitespace-nowrap" ∷ [])
                    (say (date_text log.created_at)))
                  <&> (tag "td" (attr "className" "py-2.5 font-mono text-xs" ∷ [])
                      (say log.model_name))
                  <&> (tag "td" (attr "className" "py-2.5 text-right" ∷ [])
                      (say (number_text log.total_tokens)))
                  <&> (tag "td" (attr "className" "py-2.5 text-right font-mono" ∷ [])
                      ((say "$") <&> (say (d.to_fixed 6 log.cost))))
                  <&> (tag "td" (attr "className" "py-2.5 text-right" ∷ [])
                      ((say (number_text log.latency_ms)) <&> (say "ms")))
                  <&> (tag "td" (attr "className" "py-2.5 text-right" ∷ []) (
                      tag "span"
                        (attr "className" "text-xs px-1.5 py-0.5 rounded"
                          ∷ style (
                              (
                                "color",
                                (if (log.status === "ok")
                                    then "var(--success)"
                                    else "var(--danger)"),
                              )
                              ∷ [])
                          ∷ [])
                        (say log.status)))))))))

  unfoldable pub log_view : Messages → List (LogEntry d.Number) → View E
  log_view t entries =
      if is_nil entries
      then tag "p" (attr "className" "text-sm text-[var(--muted)]" ∷ []) (say t.logs.no_requests)
      else log_rows t entries
