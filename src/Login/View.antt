-- ===== src/Login/View.antt =====
-- What the login page of web/src/app/login/page.tsx shows.
use uni_llm.Prelude.{[], if◌then◌else◌, true, truthy, ◌∷◌}
use uni_llm.I18n.Shape.{Messages}
use uni_llm.Markup.{View, attr, flag, nothing, on, on_value, say, style, tag, when, ◌<&>◌}
use uni_llm.Login.{Action, LoginPage, submit, switch, type_email, type_name, type_password}

unfoldable pub form : Messages → LoginPage → View Action
form t p = tag "form" (on "onSubmit" submit ∷ attr "className" "space-y-4" ∷ []) (
    (when p.is_register (
      tag "div" [] (
        (tag "label" (attr "className" "block text-sm mb-1.5 text-[var(--muted)]" ∷ [])
          (say t.login.name))
        <&> (tag "input"
            (attr "type" "text"
              ∷ attr "value" p.name
              ∷ on_value "onChange" type_name
              ∷ flag "required" p.is_register
              ∷ attr "className" "w-full px-3 py-2 rounded-lg text-sm outline-none"
              ∷ style (
                  ("background", "var(--background)")
                  ∷ ("border", "1px solid var(--border)")
                  ∷ ("color", "var(--foreground)")
                  ∷ [])
              ∷ attr "placeholder" t.login.name_placeholder
              ∷ [])
            nothing))))
    <&> (tag "div" [] (
        (tag "label" (attr "className" "block text-sm mb-1.5 text-[var(--muted)]" ∷ [])
          (say t.login.email))
        <&> (tag "input"
            (attr "type" "email"
              ∷ attr "value" p.email
              ∷ on_value "onChange" type_email
              ∷ flag "required" true
              ∷ attr "className" "w-full px-3 py-2 rounded-lg text-sm outline-none"
              ∷ style (
                  ("background", "var(--background)")
                  ∷ ("border", "1px solid var(--border)")
                  ∷ ("color", "var(--foreground)")
                  ∷ [])
              ∷ attr "placeholder" t.login.email_placeholder
              ∷ [])
            nothing)))
    <&> (tag "div" [] (
        (tag "label" (attr "className" "block text-sm mb-1.5 text-[var(--muted)]" ∷ [])
          (say t.login.password))
        <&> (tag "input"
            (attr "type" "password"
              ∷ attr "value" p.password
              ∷ on_value "onChange" type_password
              ∷ flag "required" true
              ∷ attr "minLength" "8"
              ∷ attr "className" "w-full px-3 py-2 rounded-lg text-sm outline-none"
              ∷ style (
                  ("background", "var(--background)")
                  ∷ ("border", "1px solid var(--border)")
                  ∷ ("color", "var(--foreground)")
                  ∷ [])
              ∷ attr "placeholder" t.login.password_placeholder
              ∷ [])
            nothing)))
    <&> (tag "button"
        (attr "type" "submit"
          ∷ flag "disabled" p.loading
          ∷ attr "className"
              "w-full py-2.5 rounded-lg font-medium text-sm text-white transition-colors"
          ∷ style (("background", (if p.loading then "var(--muted)" else "var(--primary)")) ∷ [])
          ∷ [])
        (say (
          if p.loading
          then t.login.loading
          else (if p.is_register then t.login.create_account else t.login.sign_in)))))

unfoldable pub switch_line : Messages → LoginPage → View Action
switch_line t p = tag "div" (attr "className" "mt-4 text-center text-sm text-[var(--muted)]" ∷ []) (
    (say (if p.is_register then t.login.has_account else t.login.no_account))
    <&> (say " ")
    <&> (tag "button"
        (attr "type" "button"
          ∷ on "onClick" switch
          ∷ attr "className" "underline"
          ∷ style (("color", "var(--primary)") ∷ [])
          ∷ [])
        (say (if p.is_register then t.login.sign_in else t.login.register))))

unfoldable pub login_view : Messages → LoginPage → View Action
login_view t p = tag "div" (attr "className" "min-h-screen flex flex-col" ∷ []) (
    (tag "div" (attr "className" "flex justify-end p-4" ∷ []) (tag "PreferencesBar" [] nothing))
    <&> (tag "div" (attr "className" "flex-1 flex items-center justify-center p-4" ∷ []) (
        tag "div" (attr "className" "w-full max-w-md" ∷ []) (
          (tag "div" (attr "className" "text-center mb-8" ∷ []) (
            (tag "h1" (attr "className" "text-3xl font-bold mb-2" ∷ []) (say "UniLLM"))
            <&> (tag "p" (attr "className" "text-[var(--muted)]" ∷ []) (say t.login.tagline))))
          <&> (tag "div"
              (attr "className" "rounded-xl p-6"
                ∷ style (("background", "var(--card)") ∷ ("border", "1px solid var(--border)") ∷ [])
                ∷ [])
              ((tag "h2" (attr "className" "text-xl font-semibold mb-6" ∷ [])
                  (say (if p.is_register then t.login.create_account else t.login.sign_in)))
                <&> (when (truthy p.error) (
                    tag "div"
                      (attr "className" "mb-4 p-3 rounded-lg text-sm"
                        ∷ style (
                            ("background", "rgba(239,68,68,0.1)") ∷ ("color", "var(--danger)") ∷ [])
                        ∷ [])
                      (say p.error)))
                <&> (form t p)
                <&> (switch_line t p)))))))
