-- ===== src/Playground/View.antt =====
-- What the chat page of web/src/app/playground/page.tsx shows. Its handler for keys sends on the Enter key
-- without shift, which is the event `onEnter` here.
use uni_llm.Prelude.{
  Bool, [], false, if◌then◌else◌, is_empty, is_nil, not, trim, true, truthy, ◌&&◌, ◌||◌, ◌∷◌,
}
use uni_llm.I18n.Shape.{Messages}
use uni_llm.Markup.{View, attr, each, flag, nothing, on, on_value, say, style, tag, when, ◌<&>◌}
use uni_llm.Playground.{
  Event, Page, Role, clear, pick_model, send, type_input, type_key, type_system, user,
}

abbrev is_user : Role → Bool
is_user user = true
is_user _ = false

unfoldable pub settings : Messages → Page → View Event
settings t p = tag "div" (attr "className" "flex flex-wrap gap-3 items-end" ∷ []) (
    (tag "div" (attr "className" "flex-1 min-w-[200px]" ∷ []) (
      (tag "label" (attr "className" "block text-xs text-[var(--muted)] mb-1" ∷ [])
        (say t.playground.api_key))
      <&> (tag "input"
          (attr "type" "password"
            ∷ attr "value" p.api_key
            ∷ on_value "onChange" type_key
            ∷ attr "className" "w-full px-3 py-2 rounded-lg text-sm outline-none"
            ∷ style (("background", "var(--card)") ∷ ("border", "1px solid var(--border)") ∷ [])
            ∷ attr "placeholder" t.playground.api_key_placeholder
            ∷ [])
          nothing)))
    <&> (tag "div" (attr "className" "min-w-[200px]" ∷ []) (
        (tag "label" (attr "className" "block text-xs text-[var(--muted)] mb-1" ∷ [])
          (say t.playground.model))
        <&> (tag "select"
            (attr "value" p.model
              ∷ on_value "onChange" pick_model
              ∷ attr "className" "w-full px-3 py-2 rounded-lg text-sm outline-none"
              ∷ style (
                  ("background", "var(--card)")
                  ∷ ("border", "1px solid var(--border)")
                  ∷ ("color", "var(--foreground)")
                  ∷ [])
              ∷ [])
            (if (not (is_nil p.models))
              then each p.models (λ m. tag "option" (attr "value" m ∷ []) (say m))
              else tag "option" (attr "value" p.model ∷ []) (say p.model)))))
    <&> (tag "button"
        (on "onClick" clear
          ∷ attr "className" "px-3 py-2 rounded-lg text-sm"
          ∷ style (("background", "var(--card)") ∷ ("border", "1px solid var(--border)") ∷ [])
          ∷ [])
        (say t.playground.clear)))

unfoldable pub system_field : Messages → Page → View Event
system_field t p = tag "div" [] (
    (tag "label" (attr "className" "block text-xs text-[var(--muted)] mb-1" ∷ [])
      (say t.playground.system_prompt))
    <&> (tag "input"
        (attr "value" p.system_prompt
          ∷ on_value "onChange" type_system
          ∷ attr "className" "w-full px-3 py-2 rounded-lg text-sm outline-none"
          ∷ style (("background", "var(--card)") ∷ ("border", "1px solid var(--border)") ∷ [])
          ∷ attr "placeholder" t.playground.system_prompt_placeholder
          ∷ [])
        nothing))

unfoldable pub output : Messages → Page → View Event
output t p =
    tag "div"
      (attr "className"
          "flex-1 min-h-[300px] max-h-[500px] overflow-y-auto rounded-xl p-4 space-y-4"
        ∷ style (("background", "var(--card)") ∷ ("border", "1px solid var(--border)") ∷ [])
        ∷ [])
      ((when ((is_nil p.messages) && (is_empty p.stream_text)) (
          tag "p" (attr "className" "text-sm text-[var(--muted)] text-center mt-8" ∷ [])
            (say t.playground.empty_hint)))
        <&> (each p.messages (λ m. tag "div" [] (
            (tag "div"
              (attr "className" "text-xs font-medium mb-1"
                ∷ style (
                    ("color", (if (is_user m.role) then "var(--primary)" else "var(--success)"))
                    ∷ [])
                ∷ [])
              (say
                (if (is_user m.role) then t.playground.role_you else t.playground.role_assistant)))
            <&> (tag "div" (attr "className" "text-sm whitespace-pre-wrap" ∷ []) (say m.content)))))
        <&> (when (p.streaming && (truthy p.stream_text)) (
            tag "div" [] (
              (tag "div"
                (attr "className" "text-xs font-medium mb-1"
                  ∷ style (("color", "var(--success)") ∷ [])
                  ∷ [])
                (say t.playground.role_assistant))
              <&> (tag "div" (attr "className" "text-sm whitespace-pre-wrap" ∷ [])
                  (say p.stream_text)))))
        <&> (when (p.streaming && (is_empty p.stream_text)) (
            tag "div" (attr "className" "text-sm text-[var(--muted)]" ∷ [])
              (say t.playground.thinking))))

unfoldable pub composer : Messages → Page → View Event
composer t p = tag "div" (attr "className" "flex gap-2" ∷ []) (
    (tag "input"
      (attr "value" p.input
        ∷ on_value "onChange" type_input
        ∷ on "onEnter" send
        ∷ attr "placeholder" (
            if (truthy p.api_key)
            then t.playground.message_placeholder
            else t.playground.need_api_key)
        ∷ flag "disabled" ((is_empty p.api_key) || p.streaming)
        ∷ attr "className" "flex-1 px-4 py-3 rounded-lg text-sm outline-none"
        ∷ style (("background", "var(--background)") ∷ ("border", "1px solid var(--border)") ∷ [])
        ∷ [])
      nothing)
    <&> (tag "button"
        (on "onClick" send
          ∷ flag "disabled" ((is_empty p.api_key) || ((is_empty (trim p.input)) || p.streaming))
          ∷ attr "className" "px-6 py-3 rounded-lg text-sm font-medium text-white"
          ∷ style (
              (
                "background",
                (if ((is_empty p.api_key) || ((is_empty (trim p.input)) || p.streaming))
                    then "var(--muted)"
                    else "var(--primary)"),
              )
              ∷ [])
          ∷ [])
        (say t.playground.send)))

unfoldable pub chat_view : Messages → Page → View Event
chat_view t p = tag "div" (attr "className" "min-h-screen flex flex-col" ∷ []) (
    (tag "SiteHeader" (attr "activeNav" "playground" ∷ []) nothing)
    <&> (tag "div" (attr "className" "flex-1 flex flex-col max-w-4xl mx-auto w-full p-6 gap-4" ∷ [])
        ((settings t p) <&> (system_field t p) <&> (output t p) <&> (composer t p))))
