-- ===== src/Playground.antt =====
-- web/src/app/playground/page.tsx: the chat page as a state machine. `handleSend` awaits the response
-- and each chunk of it; what the user or another call does meanwhile is an event between two of its
-- steps. `Phase` says where the handler waits, with its local variable `fullText`.
pub mod Stream
pub mod Cuts
pub mod Dialogue
pub mod Turns
pub mod Choice
pub mod Lists
pub mod Exchange
pub mod Progress
pub mod View
pub mod Controls
use uni_llm.Prelude.{
  Bool, List, Option, String, [], false, if◌then◌else◌, is_empty, none, some, some_of, starts_with,
  text_or, trim, true, truthy, ◌++◌, ◌<+>◌, ◌===◌, ◌||◌, ◌∷◌,
}
use uni_llm.I18n.Shape.{Messages}
use uni_llm.Playground.Stream.{feed}

pub data Role : Type 0 where
  system user assistant : Role

pub record Message : Type 0 where
  pub role : Role
  pub content : String

pub data Phase : Type 0 where
  idle : Phase
  awaiting : Phase
  receiving : (full_text : String) → Phase

-- What is posted to /v1/chat/completions, with the key of its Authorization header.
pub record ChatRequest : Type 0 where
  pub key : String
  pub model : String
  pub messages : List Message

pub record Page : Type 0 where
  pub api_key : String
  pub model : String
  pub models : List String
  pub system_prompt : String
  pub input : String
  pub messages : List Message
  pub streaming : Bool
  pub stream_text : String
  pub saved_key : Option String
  pub phase : Phase
  pub sent : List ChatRequest
  -- the calls of `loadModels`: the key, and the value of `model` that the call has captured
  pub asked : List (String × String)
  -- `router.push`
  pub pushed : List String

pub data Event : Type 0 where
  type_key type_system type_input pick_model : String → Event
  -- the answer of /v1/models, with the value of `model` when it was asked for
  models_loaded : (captured : String) → List String → Event
  clear send : Event
  -- `!res.ok` with its text; a response, with or without a body; the two ways to throw
  refused : String → Event
  accepted : (has_body : Bool) → Event
  chunk : String → Event
  finished : Event
  thrown : String → Event

abbrev pub list_includes : String → List String → Bool
list_includes v = some_of (λ w. w === v)

abbrev pub first_or : String → List String → String
first_or d [] = d
first_or d (x ∷ xs) = x

-- `setModels(ids); if (ids.length > 0 && !ids.includes(model)) setModel(ids[0]);`
unfoldable pub load_models : String → List String → Page → Page
load_models captured ids p = record p {
  models = ids;
  model = if list_includes captured ids then p.model else first_or p.model ids;
}

abbrev pub say : Role → String → Page → Page
say r c p = record p { messages = p.messages ++ record { role = r; content = c } ∷ [] }

-- `setStreaming(false)` at the end of the handler.
abbrev pub stop : Page → Page
stop p = record p { streaming = false; phase = idle }

abbrev pub system_message : String → List Message
system_message prompt =
    if truthy prompt then record { role = system; content = prompt } ∷ [] else []

-- `allMessages`
unfoldable pub all_messages : Page → List Message
all_messages p =
    system_message p.system_prompt
    ++ (p.messages ++ record { role = user; content = trim p.input } ∷ [])

-- The guard of `handleSend`: `!input.trim() || !apiKey || streaming`.
unfoldable pub is_blocked : Page → Bool
is_blocked p = is_empty (trim p.input) || is_empty p.api_key || p.streaming

-- `handleSend` up to the `await` of `fetch`.
unfoldable pub begin_send : Page → Page
unfolding is_blocked all_messages
begin_send p = if is_blocked p then p else record p {
  messages = p.messages ++ record { role = user; content = trim p.input } ∷ [];
  input = "";
  streaming = true;
  stream_text = "";
  phase = awaiting;
  sent = p.sent ++ record { key = p.api_key; model = p.model; messages = all_messages p } ∷ [];
}

-- `handleKeyChange`
abbrev pub handle_key_change : String → Page → Page
handle_key_change k p = record p {
  api_key = k;
  saved_key = some k;
  asked = if starts_with k "sk-" then p.asked ++ (k, p.model) ∷ [] else p.asked;
}

-- The button that clears the dialogue.
abbrev pub clear_page : Page → Page
clear_page p = record p { messages = []; stream_text = "" }

-- The end of the `try` block: the answer becomes a message.
unfoldable pub conclude : Messages → String → Page → Page
conclude t full p = stop (record p {
  messages =
      p.messages
      ++ record { role = assistant; content = text_or full t.playground.empty_response } ∷ [];
  stream_text = "";
})

-- `content_of` stands for `JSON.parse` and the member `choices[0].delta.content`.
module _ (t : Messages) (content_of : String → String) where
  unfoldable pub receive : Event → Phase → Page → Page
  receive (refused text) awaiting p = stop (say assistant ("Error: " <+> text) p)
  receive (accepted true) awaiting p = record p { phase = receiving "" }
  receive (accepted false) awaiting p = conclude t "" p
  receive (thrown m) awaiting p = stop (say assistant ("Error: " <+> m) p)
  receive (chunk c) (receiving full) p =
      let r = feed content_of (record { full = full; shown = p.stream_text }) c in
      record p { phase = receiving r.full; stream_text = r.shown }
  receive finished (receiving full) p = conclude t full p
  receive (thrown m) (receiving full) p = stop (say assistant ("Error: " <+> m) p)
  receive _ _ p = p

  -- One event. An event of the network that the handler does not wait for cannot come, and changes
  -- nothing here.
  unfoldable pub step : Event → Page → Page
  step (type_key k) p = handle_key_change k p
  step (type_system v) p = record p { system_prompt = v }
  step (type_input v) p = record p { input = v }
  step (pick_model m) p = record p { model = m }
  step (models_loaded captured ids) p = load_models captured ids p
  step clear p = clear_page p
  step send p = begin_send p
  step e p = receive e p.phase p

  unfoldable pub run : List Event → Page → Page
  run [] p = p
  run (e ∷ es) p = run es (step e p)

-- The first render.
unfoldable pub first_render : Option String → Page
first_render saved = record {
  api_key = "";
  model = "deepseek-chat";
  models = [];
  system_prompt = "You are a helpful assistant.";
  input = "";
  messages = [];
  streaming = false;
  stream_text = "";
  saved_key = saved;
  phase = idle;
  sent = [];
  asked = [];
  pushed = [];
}

-- `const saved = localStorage.getItem("playground_key")` and what follows from it.
abbrev pub use_saved : Option String → Page → Page
use_saved none p = p
use_saved (some saved) p =
    if truthy saved
    then record p { api_key = saved; asked = p.asked ++ (saved, p.model) ∷ [] }
    else p

-- The effect of the first render, for a visitor who is logged in or not.
unfoldable pub open_page : Bool → Option String → Page
unfolding first_render
open_page logged_in saved =
    let p = first_render saved in
    if logged_in then use_saved saved p else record p { pushed = "/login" ∷ [] }

-- The element of `outputRef`.
record Output (Number : Type 0) : Type 0 where
  scroll_top : Number
  scroll_height : Number

-- The effect with the dependencies `[messages, streamText]`.
abbrev scroll_down : {Number : Type 0} → Option (Output Number) → Option (Output Number)
scroll_down none = none
scroll_down (some o) = some (record o { scroll_top = o.scroll_height })
