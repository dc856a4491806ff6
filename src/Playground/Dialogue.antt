-- ===== src/Playground/Dialogue.antt =====
-- Invariants of the chat page of web/src/app/playground/page.tsx over all sequences of events.
use mathlib.Core.List.{append_assoc}
use uni_llm.Prelude.{
  All, All-append, Bool, Bool-cases, List, Option, String, [], ap, arith, false, inl, inr, is_empty,
  none, refl, some, sym, trim, true, ◌++◌, ◌∙◌, ◌∷◌, ◌≡◌,
}
use uni_llm.I18n.Shape.{Messages}
use uni_llm.Playground.{
  ChatRequest, Event, Message, Page, Phase, accepted, all_messages, awaiting, begin_send, chunk,
  conclude, finished, idle, is_blocked, load_models, open_page, receive, receiving, refused, run,
  send, step, system_message, thrown, user,
}

abbrev pub is_busy : Phase → Bool
is_busy idle = false
is_busy _ = true

-- A request has a key, and ends with a message of the user that is not blank.
abbrev pub IsProper : ChatRequest → Type 0
IsProper r =
    (is_empty r.key ≡ false)
    × ((before : List Message) × (text : String) × (is_empty text ≡ false)
        × (r.messages ≡ before ++ record { role = user; content = text } ∷ []))

-- `streaming` is set exactly while `handleSend` waits, and every request so far was proper.
pub record IsConsistent (p : Page) : Type 0 where
  pub busy : p.streaming ≡ is_busy p.phase
  pub proper : All IsProper p.sent

begin_send-IsConsistent : (p : Page) → IsConsistent p → IsConsistent (begin_send p)
unfolding begin_send
begin_send-IsConsistent p c = elim (Bool-cases (is_blocked p)) [
  | inl blocked ↦ rw blocked c
  | inr free ↦ rw free (record {
    busy = refl;
    proper = All-append IsProper p.sent _ c.proper (
      (
        (unfold is_blocked in ground arith),
        (
          system_message p.system_prompt ++ p.messages,
          trim p.input,
          unfold is_blocked in ground arith,
          unfold all_messages in sym (append_assoc (system_message p.system_prompt) p.messages _),
        ),
      ),
      tt,
    );
  })
]

module _ (t : Messages) (content_of : String → String) where
  receive-IsConsistent :
      (e : Event) (f : Phase) (p : Page)
      → p.phase ≡ f
      → IsConsistent p
      → IsConsistent (receive t content_of e f p)
  unfolding receive conclude
  receive-IsConsistent (refused x) awaiting p g c = record { busy = refl; proper = c.proper }
  receive-IsConsistent (accepted true) awaiting p g c = record {
    busy = c.busy ∙ ap is_busy g;
    proper = c.proper;
  }
  receive-IsConsistent (accepted false) awaiting p g c = record { busy = refl; proper = c.proper }
  receive-IsConsistent (thrown m) awaiting p g c = record { busy = refl; proper = c.proper }
  receive-IsConsistent (chunk x) (receiving full) p g c = record {
    busy = c.busy ∙ ap is_busy g;
    proper = c.proper;
  }
  receive-IsConsistent finished (receiving full) p g c = record { busy = refl; proper = c.proper }
  receive-IsConsistent (thrown m) (receiving full) p g c = record { busy = refl; proper = c.proper }
  receive-IsConsistent e f p g c = c

  pub step-IsConsistent :
      (e : Event) (p : Page) → IsConsistent p → IsConsistent (step t content_of e p)
  unfolding step load_models
  step-IsConsistent send p c = begin_send-IsConsistent p c
  step-IsConsistent (refused x) p c = receive-IsConsistent (refused x) p.phase p refl c
  step-IsConsistent (accepted b) p c = receive-IsConsistent (accepted b) p.phase p refl c
  step-IsConsistent (chunk x) p c = receive-IsConsistent (chunk x) p.phase p refl c
  step-IsConsistent finished p c = receive-IsConsistent finished p.phase p refl c
  step-IsConsistent (thrown x) p c = receive-IsConsistent (thrown x) p.phase p refl c
  step-IsConsistent _ p c = record { busy = c.busy; proper = c.proper }

  -- Whatever the user and the network do, from any consistent page on: `streaming` is set exactly
  -- while a request is in flight, and every request that was sent has a key and ends with a message
  -- of the user that is not blank.
  pub run-IsConsistent :
      (es : List Event) (p : Page) → IsConsistent p → IsConsistent (run t content_of es p)
  unfolding run
  run-IsConsistent [] p c = c
  run-IsConsistent (e ∷ es) p c =
      run-IsConsistent es (step t content_of e p) (step-IsConsistent e p c)

-- The page is consistent when it opens.
pub open_page-IsConsistent :
    (logged_in : Bool) (saved : Option String) → IsConsistent (open_page logged_in saved)
unfolding open_page
open_page-IsConsistent false saved = record { busy = refl; proper = tt }
open_page-IsConsistent true none = record { busy = refl; proper = tt }
open_page-IsConsistent true (some k) = elim (Bool-cases (is_empty k)) [
  | inl e ↦ rw e (record { busy = refl; proper = tt })
  | inr e ↦ rw e (record { busy = refl; proper = tt })
]
