-- ===== src/Home/Intro.antt =====
-- The parts of the home page of web/src/app/page.tsx that need no models.
use uni_llm.Prelude.{List, String, [], ◌∷◌}
use uni_llm.I18n.Shape.{FeatureMessages, Messages}
use uni_llm.Markup.{View, attr, each, nothing, on, say, style, tag, ◌<&>◌}

pub record Stat : Type 0 where
  pub label : String
  pub value : String

abbrev pub stats : Messages → List Stat
stats t =
    record { label = t.home.stats_models; value = "7+" }
    ∷ record { label = t.home.stats_vendors; value = "3" }
    ∷ record { label = t.home.stats_uptime; value = "99.9%" }
    ∷ record { label = t.home.stats_latency; value = "<1s" }
    ∷ []

-- A feature with its texts, `t.home.features[f.key]`.
pub record Feature : Type 0 where
  pub icon : String
  pub feat : FeatureMessages

abbrev pub features : Messages → List Feature
features t =
    record { icon = "{}"; feat = t.home.features.openai }
    ∷ record { icon = "$"; feat = t.home.features.pricing }
    ∷ record { icon = "↔"; feat = t.home.features.multi_vendor }
    ∷ record { icon = "↻"; feat = t.home.features.failover }
    ∷ record { icon = "◎"; feat = t.home.features.dashboard }
    ∷ record { icon = ">_"; feat = t.home.features.dev_first }
    ∷ []

-- The two handlers of a link set its background.
pub data HomeEvent : Type 0 where
  paint : String → HomeEvent

unfoldable pub terminal : Messages → View HomeEvent
terminal t = tag "div" (attr "className" "max-w-2xl mx-auto text-left" ∷ []) (
    tag "div"
      (attr "className" "rounded-xl overflow-hidden"
        ∷ style (("border", "1px solid var(--border)") ∷ [])
        ∷ [])
      ((tag "div"
          (attr "className"
              "px-4 py-2 text-xs font-mono text-[var(--muted)] flex items-center gap-2"
            ∷ style
                (("background", "var(--card)") ∷ ("borderBottom", "1px solid var(--border)") ∷ [])
            ∷ [])
          ((tag "span"
              (attr "className" "w-2.5 h-2.5 rounded-full inline-block"
                ∷ style (("background", "#ef4444") ∷ [])
                ∷ [])
              nothing)
            <&> (tag "span"
                (attr "className" "w-2.5 h-2.5 rounded-full inline-block"
                  ∷ style (("background", "#f59e0b") ∷ [])
                  ∷ [])
                nothing)
            <&> (tag "span"
                (attr "className" "w-2.5 h-2.5 rounded-full inline-block"
                  ∷ style (("background", "#22c55e") ∷ [])
                  ∷ [])
                nothing)
            <&> (tag "span" (attr "className" "ml-2" ∷ []) (say t.home.terminal))))
        <&> (tag "pre"
            (attr "className" "text-xs md:text-sm p-5 overflow-x-auto font-mono leading-relaxed"
              ∷ style (("background", "var(--background)") ∷ [])
              ∷ [])
            ((tag "span" (style (("color", "var(--success)") ∷ []) ∷ []) (say "curl"))
              <&> (say " https://api.unillm.dev/v1/chat/completions \\\n")
              <&> (say "  -H ")
              <&> (tag "span" (style (("color", "#d97706") ∷ []) ∷ [])
                  (say "\"Authorization: Bearer YOUR_API_KEY\""))
              <&> (say " \\\n")
              <&> (say "  -H ")
              <&> (tag "span" (style (("color", "#d97706") ∷ []) ∷ [])
                  (say "\"Content-Type: application/json\""))
              <&> (say " \\\n")
              <&> (say "  -d ")
              <&> (tag "span" (style (("color", "#d97706") ∷ []) ∷ []) (say "'"))
              <&> (tag "span" (style (("color", "var(--foreground)") ∷ []) ∷ []) (
                  say
                    "{\n    \"model\": \"claude-sonnet-4-20250514\",\n    \"messages\": [{\"role\": \"user\", \"content\": \"Hello!\"}]\n  }"))
              <&> (tag "span" (style (("color", "#d97706") ∷ []) ∷ []) (say "'"))))))

unfoldable pub hero : Messages → View HomeEvent
hero t = tag "section" (attr "className" "max-w-5xl mx-auto px-6 pt-20 pb-16 text-center" ∷ []) (
    (tag "h1"
      (attr "className" "text-4xl md:text-6xl font-bold tracking-tight mb-6 leading-tight" ∷ [])
      ((say t.home.hero_title)
        <&> (say " ")
        <&> (tag "span" (style (("color", "var(--primary)") ∷ []) ∷ [])
            (say t.home.hero_title_highlight))))
    <&> (tag "p"
        (attr "className"
            "text-lg md:text-xl text-[var(--muted)] max-w-2xl mx-auto mb-10 leading-relaxed"
          ∷ [])
        (say t.home.hero_subtitle))
    <&> (tag "div" (attr "className" "flex items-center justify-center gap-4 flex-wrap mb-14" ∷ [])
        ((tag "a"
            (attr "href" "/login"
              ∷ attr "className"
                  "px-6 py-3 rounded-lg font-medium text-white text-sm transition-colors"
              ∷ style (("background", "var(--primary)") ∷ [])
              ∷ on "onMouseEnter" (paint "var(--primary-hover)")
              ∷ on "onMouseLeave" (paint "var(--primary)")
              ∷ [])
            (say t.home.get_started))
          <&> (tag "a"
              (attr "href" "/models"
                ∷ attr "className" "px-6 py-3 rounded-lg font-medium text-sm transition-colors"
                ∷ style (
                    ("background", "var(--card)")
                    ∷ ("border", "1px solid var(--border)")
                    ∷ ("color", "var(--foreground)")
                    ∷ [])
                ∷ [])
              (say t.home.view_models))))
    <&> (terminal t))

unfoldable pub stats_section : Messages → View HomeEvent
stats_section t =
    tag "section"
      (attr "className" "border-y"
        ∷ style (("borderColor", "var(--border)") ∷ ("background", "var(--card)") ∷ [])
        ∷ [])
      (tag "div"
        (attr "className"
            "max-w-5xl mx-auto px-6 py-8 grid grid-cols-2 md:grid-cols-4 gap-6 text-center"
          ∷ [])
        (each (stats t) (λ s. tag "div" [] (
          (tag "div"
            (attr "className" "text-3xl font-bold mb-1"
              ∷ style (("color", "var(--primary)") ∷ [])
              ∷ [])
            (say s.value))
          <&> (tag "div" (attr "className" "text-sm text-[var(--muted)]" ∷ []) (say s.label))))))

unfoldable pub features_section : Messages → View HomeEvent
features_section t = tag "section" (attr "className" "max-w-5xl mx-auto px-6 py-20" ∷ []) (
    (tag "h2" (attr "className" "text-2xl md:text-3xl font-bold text-center mb-3" ∷ [])
      (say t.home.features_title))
    <&> (tag "p" (attr "className" "text-[var(--muted)] text-center mb-12 max-w-xl mx-auto" ∷ [])
        (say t.home.features_subtitle))
    <&> (tag "div" (attr "className" "grid grid-cols-1 md:grid-cols-2 lg:grid-cols-3 gap-5" ∷ []) (
        each (features t) (λ x.
          tag "div"
            (attr "className" "rounded-xl p-6 transition-colors"
              ∷ style (("background", "var(--card)") ∷ ("border", "1px solid var(--border)") ∷ [])
              ∷ [])
            ((tag "div"
                (attr "className"
                    "w-10 h-10 rounded-lg flex items-center justify-center text-sm font-bold mb-4"
                  ∷ style (
                      ("background", "var(--primary)15")
                      ∷ ("color", "var(--primary)")
                      ∷ ("border", "1px solid var(--primary)30")
                      ∷ [])
                  ∷ [])
                (say x.icon))
              <&> (tag "h3" (attr "className" "text-base font-semibold mb-2" ∷ [])
                  (say x.feat.title))
              <&> (tag "p" (attr "className" "text-sm text-[var(--muted)] leading-relaxed" ∷ [])
                  (say x.feat.description)))))))

unfoldable pub footer : Messages → View HomeEvent
footer t =
    tag "footer"
      (attr "className" "border-t px-6 py-8 text-center"
        ∷ style (("borderColor", "var(--border)") ∷ [])
        ∷ [])
      (tag "p" (attr "className" "text-sm text-[var(--muted)]" ∷ [])
        ((say "© 2026 UniLLM. ") <&> (say t.home.footer)))
