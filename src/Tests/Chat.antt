-- ===== src/Tests/Chat.antt =====
-- The properties of the chat page, on a short dialogue.
use uni_llm.Prelude.{
  List, String, [], false, if◌then◌else◌, map, none, refl, some, text_or, trim, true, ◌++◌, ◌<+>◌,
  ◌===◌, ◌∷◌, ◌≡◌,
}
use uni_llm.I18n.Catalogs.{en}
use uni_llm.Playground.{
  Event, Page, accepted, all_messages, assistant, awaiting, begin_send, chunk, clear, conclude,
  finished, first_render, idle, is_blocked, open_page, receive, receiving, run, send, step, thrown,
  type_input, user,
}
use uni_llm.Playground.Stream.{feed, feed_all}
use uni_llm.Playground.Cuts.{cut_line_lost, feed_all-joined, joined}
use uni_llm.Playground.Dialogue.{IsConsistent, open_page-IsConsistent, run-IsConsistent}
use uni_llm.Playground.Turns.{Alternates, IsOrphan, clear_orphans_answer, run-Alternates, turns}
use uni_llm.Playground.Exchange.{collected, exchange}
use uni_llm.Playground.Progress.{asked_after, can_send_again, compose}

-- A body that is a letter in quotes holds that content; any other is no complete JSON.
abbrev quoted : String → String
quoted s = if s === "'Hi'" then "Hi" else if s === "' there'" then " there" else ""

abbrev fresh : Page
fresh = open_page true (some "sk-1")

-- The page with a question typed in.
abbrev asking : Page
asking = run en quoted (type_input " Hello " ∷ []) fresh

asking_free : is_blocked asking ≡ false
unfolding run step open_page first_render is_blocked
asking_free = refl

abbrev pieces : List String
pieces = "data: 'Hi'\n" ∷ "data: ' there'\ndata: [DONE]\n" ∷ []

exchange_example :
    run en quoted (send ∷ accepted true ∷ (map chunk pieces ++ finished ∷ [])) asking
    ≡ record asking {
      messages =
          asking.messages
          ++ record { role = user; content = trim asking.input }
            ∷ record {
              role = assistant;
              content = text_or (collected en quoted pieces).full en.playground.empty_response;
            }
            ∷ [];
      input = "";
      streaming = false;
      stream_text = "";
      phase = idle;
      sent =
          asking.sent
          ++ record { key = asking.api_key; model = asking.model; messages = all_messages asking }
            ∷ [];
    }
exchange_example = exchange en quoted pieces asking asking_free

abbrev events : List Event
events =
    type_input "Hello"
    ∷ send
    ∷ accepted true
    ∷ chunk "data: 'Hi'\n"
    ∷ finished
    ∷ clear
    ∷ type_input "Again"
    ∷ send
    ∷ []

run-IsConsistent_example : IsConsistent (run en quoted events fresh)
run-IsConsistent_example =
    run-IsConsistent en quoted events fresh (open_page-IsConsistent true (some "sk-1"))

run-Alternates_example : Alternates (run en quoted events fresh)
unfolding run step open_page first_render begin_send is_blocked receive conclude
run-Alternates_example =
    run-Alternates en quoted events fresh (open_page-IsConsistent true (some "sk-1")) (refl, tt)
      refl

feed_all-joined_example :
    (feed_all quoted
      (record { full = ""; shown = "" })
      (map (λ b. b <+> "\n") ("data: 'Hi'" ∷ "data: ' there'" ∷ []))).full
    ≡ (feed quoted
        (record { full = ""; shown = "" })
        (joined ("data: 'Hi'" ∷ "data: ' there'" ∷ []))).full
feed_all-joined_example =
    feed_all-joined quoted (record { full = ""; shown = "" }) ("data: 'Hi'" ∷ "data: ' there'" ∷ [])

cut_line_lost_example :
    (feed_all quoted
        (record { full = "Oh. "; shown = "Oh. " })
        (("data: " <+> "'H") ∷ ("i'" <+> "\n") ∷ [])
      ≡ record { full = "Oh. "; shown = "Oh. " })
    × ((feed quoted
          (record { full = "Oh. "; shown = "Oh. " })
          (("data: " <+> ("'H" <+> "i'")) <+> "\n")).full
        ≡ "Oh. " <+> quoted (trim ("'H" <+> "i'")))
cut_line_lost_example =
    cut_line_lost quoted (record { full = "Oh. "; shown = "Oh. " }) "'H" "i'" (refl, (refl, tt))
      (refl, (refl, tt)) refl refl refl

abbrev answering : Page
answering = record asking { streaming = true; phase = receiving "Hi" }

abbrev rest_of_answer : List Event
rest_of_answer = chunk "data: ' there'\n" ∷ type_input "And?" ∷ send ∷ clear ∷ []

clear_orphans_answer_example :
    IsOrphan en quoted (run en quoted (clear ∷ (rest_of_answer ++ finished ∷ [])) answering)
    × (turns false (run en quoted (clear ∷ (rest_of_answer ++ finished ∷ [])) answering).messages
        ≡ none)
unfolding run step open_page first_render begin_send is_blocked receive
clear_orphans_answer_example =
    clear_orphans_answer en quoted rest_of_answer finished answering
      (refl, (refl, (refl, (refl, (refl, refl))))) refl

abbrev so_far : List Event
so_far = type_input "Hello" ∷ send ∷ accepted true ∷ chunk "data: 'Hi'\n" ∷ clear ∷ []

can_send_again_example :
    ((step en quoted (thrown "lost") (run en quoted so_far fresh)).streaming ≡ false)
    × ((step en quoted (thrown "lost") (run en quoted so_far fresh)).phase ≡ idle)
    × ((run en quoted (so_far ++ thrown "lost" ∷ compose en quoted "sk-2" "Again") fresh).sent
        ≡ (run en quoted so_far fresh).sent
          ++ record {
            key = "sk-2";
            model = (step en quoted (thrown "lost") (run en quoted so_far fresh)).model;
            messages =
                all_messages (record (step en quoted (thrown "lost") (run en quoted so_far fresh)) {
                  input = "Again";
                });
          }
            ∷ [])
    × ((run en quoted (so_far ++ thrown "lost" ∷ compose en quoted "sk-2" "Again") fresh).phase
        ≡ awaiting)
    × ((run en quoted (so_far ++ thrown "lost" ∷ compose en quoted "sk-2" "Again") fresh).asked
        ≡ asked_after en quoted "sk-2"
            (step en quoted (thrown "lost") (run en quoted so_far fresh)).model
            (run en quoted so_far fresh).asked)
unfolding run step open_page first_render begin_send is_blocked receive
can_send_again_example =
    can_send_again en quoted so_far (thrown "lost") "sk-2" "Again" fresh refl refl refl
