-- ===== src/Docs.antt =====
-- web/src/app/docs/page.tsx: the documentation page. Its texts are in English in every locale; only its
-- title, the labels of the sections and the title of the examples come from the catalog.
mod Samples
mod Others
mod Basics
mod Streams
mod Tools
mod Limits
pub mod Inline
pub mod Markdown
pub mod Source
pub mod Spans
pub mod Pieces
pub mod Loop
pub mod Print
pub mod Sections
pub mod Blocks
pub mod View
pub mod Controls
use uni_llm.Prelude.{
  Bool, List, Option, String, [], find_first, if◌then◌else◌, join_lines, lookup, map, none, or_else,
  some, ◌===◌, ◌∷◌,
}
use uni_llm.I18n.Shape.{Messages}
use uni_llm.Docs.Samples.{go_code, java_script_code, python_code}
use uni_llm.Docs.Others.{curl_code, java_code, php_code, ruby_code}
use uni_llm.Docs.Basics.{auth_lines, chat_lines, models_lines, quickstart_lines, sdks_lines}
use uni_llm.Docs.Streams.{streaming_lines}
use uni_llm.Docs.Tools.{functions_lines}
use uni_llm.Docs.Limits.{errors_lines, pricing_lines, ratelimits_lines}
use uni_llm.Docs.Markdown.{Block, markdown}

-- `SdkLanguage`
pub data SdkLanguage : Type 0 where
  python java_script go java ruby php curl : SdkLanguage

abbrev pub sdk_languages : List SdkLanguage
sdk_languages = python ∷ java_script ∷ go ∷ java ∷ ruby ∷ php ∷ curl ∷ []

abbrev pub sdk_name : SdkLanguage → String
sdk_name python = "Python"
sdk_name java_script = "JavaScript"
sdk_name go = "Go"
sdk_name java = "Java"
sdk_name ruby = "Ruby"
sdk_name php = "PHP"
sdk_name curl = "curl"

pub record Example : Type 0 where
  pub lang : String
  pub code : String

-- `SDK_EXAMPLES[language]`
unfoldable pub sdk_examples : SdkLanguage → Example
sdk_examples python = record { lang = "python"; code = join_lines python_code }
sdk_examples java_script = record { lang = "typescript"; code = join_lines java_script_code }
sdk_examples go = record { lang = "go"; code = join_lines go_code }
sdk_examples java = record { lang = "java"; code = join_lines java_code }
sdk_examples ruby = record { lang = "ruby"; code = join_lines ruby_code }
sdk_examples php = record { lang = "php"; code = join_lines php_code }
sdk_examples curl = record { lang = "bash"; code = join_lines curl_code }

-- A member of `SECTIONS`; its text is given by its lines.
pub record Section : Type 0 where
  pub id : String
  pub title : String
  pub lines : List String

abbrev pub section : String → String → List String → Section
section id title lines = record { id = id; title = title; lines = lines }

abbrev pub content : Section → String
content s = join_lines s.lines

unfoldable pub sections : List Section
sections =
    section "quickstart" "Quick Start" quickstart_lines
    ∷ section "auth" "Authentication" auth_lines
    ∷ section "chat" "Chat Completions" chat_lines
    ∷ section "models" "List Models" models_lines
    ∷ section "streaming" "Streaming" streaming_lines
    ∷ section "sdks" "SDK Examples" sdks_lines
    ∷ section "functions" "Function Calling" functions_lines
    ∷ section "errors" "Error Handling" errors_lines
    ∷ section "ratelimits" "Rate Limits" ratelimits_lines
    ∷ section "pricing" "Pricing" pricing_lines
    ∷ []

pub record DocsPage : Type 0 where
  pub active : String
  pub sdk_lang : SdkLanguage

abbrev pub first_docs : DocsPage
first_docs = record { active = "quickstart"; sdk_lang = python }

-- The buttons of the side bar and of the languages.
pub data Choice : Type 0 where
  show_section : String → Choice
  show_language : SdkLanguage → Choice

unfoldable pub press_button : Choice → DocsPage → DocsPage
press_button (show_section id) p = record p { active = id }
press_button (show_language l) p = record p { sdk_lang = l }

-- `SECTIONS.find((s) => s.id === active)`
unfoldable pub active_section : DocsPage → Option Section
active_section p = find_first (λ (s : Section). s.id === p.active) sections

-- `t.docs.sections[id]`, a key of the catalog, if it has one.
unfoldable pub label_of : Messages → String → Option String
label_of t id = lookup id (
    ("quickstart", t.docs.sections.quickstart)
    ∷ ("auth", t.docs.sections.auth)
    ∷ ("chat", t.docs.sections.chat)
    ∷ ("models", t.docs.sections.models)
    ∷ ("streaming", t.docs.sections.streaming)
    ∷ ("sdks", t.docs.sections.sdks)
    ∷ ("functions", t.docs.sections.functions)
    ∷ ("errors", t.docs.sections.errors)
    ∷ ("ratelimits", t.docs.sections.ratelimits)
    ∷ ("pricing", t.docs.sections.pricing)
    ∷ [])

-- `sectionLabel`
unfoldable pub section_label : Messages → String → String
section_label t id = or_else (label_of t id) id

-- A button of the side bar: its label, what it shows, and whether it is the active one.
pub record SectionButton : Type 0 where
  pub label : String
  pub shows : String
  pub is_active : Bool

unfoldable pub side_bar : Messages → DocsPage → List SectionButton
unfolding section_label
side_bar t p =
    map
      (λ (s : Section). record {
        label = section_label t s.id;
        shows = s.id;
        is_active = p.active === s.id;
      })
      sections

-- A tab of `SdkSection`: its label, the language it selects, and whether it is the selected one.
pub record LanguageTab : Type 0 where
  pub label : String
  pub selects : SdkLanguage
  pub is_active : Bool

-- What `SdkSection` shows.
pub record SdkView : Type 0 where
  pub title : String
  pub intro : String
  pub tabs : List LanguageTab
  pub example : Example

unfoldable pub sdk_section : Messages → SdkLanguage → SdkView
unfolding sdk_examples
sdk_section t selected = record {
  title = t.docs.sdk_examples;
  intro =
      "UniLLM is compatible with any OpenAI SDK or HTTP client. Select your preferred language below.";
  tabs =
      map
        (λ l. record {
          label = sdk_name l;
          selects = l;
          is_active = sdk_name selected === sdk_name l;
        })
        sdk_languages;
  example = sdk_examples selected;
}

-- What stands in `<main>`.
pub data Content : Type 0 where
  nothing : Content
  examples : SdkView → Content
  text : List Block → Content

unfoldable pub main_content : Messages → DocsPage → Content
unfolding active_section sdk_section
main_content t p = elim (active_section p) [
  | none ↦ nothing
  | some s ↦
      if s.id === "sdks" then examples (sdk_section t p.sdk_lang) else text (markdown (content s))
]
