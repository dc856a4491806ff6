-- ===== src/Playground/Progress.antt =====
-- Whatever has happened on the chat page of web/src/app/playground/page.tsx, it can be used again.
use uni_llm.Prelude.{
  Bool, List, String, [], ap, false, if◌then◌else◌, is_empty, refl, starts_with, trim, true, ◌++◌,
  ◌∙◌, ◌∷◌, ◌≡◌,
}
use uni_llm.I18n.Shape.{Messages}
use uni_llm.Playground.{
  Event, Page, Phase, accepted, all_messages, awaiting, begin_send, conclude, finished,
  handle_key_change, idle, is_blocked, receive, receiving, refused, run, send, step, thrown,
  type_input, type_key,
}
use uni_llm.Playground.Exchange.{run-append}

-- The events that end the wait of `handleSend`.
abbrev pub is_last : Event → Phase → Bool
is_last (refused _) awaiting = true
is_last (accepted false) awaiting = true
is_last (thrown _) awaiting = true
is_last finished (receiving _) = true
is_last (thrown _) (receiving _) = true
is_last _ _ = false

-- The page is ready, and has sent and asked what the other one has.
record IsReadyAfter (q p : Page) : Type 0 where
  rests : p.streaming ≡ false
  is_idle : p.phase ≡ idle
  same_sent : p.sent ≡ q.sent
  same_asked : p.asked ≡ q.asked

module _ (t : Messages) (content_of : String → String) where
  receive-IsReadyAfter :
      (e : Event) (f : Phase) (q : Page)
      → is_last e f ≡ true
      → IsReadyAfter q (receive t content_of e f q)
  unfolding receive conclude
  receive-IsReadyAfter (refused x) awaiting q l = record {
    rests = refl;
    is_idle = refl;
    same_sent = refl;
    same_asked = refl;
  }
  receive-IsReadyAfter (accepted false) awaiting q l = record {
    rests = refl;
    is_idle = refl;
    same_sent = refl;
    same_asked = refl;
  }
  receive-IsReadyAfter (accepted true) awaiting q l = cc
  receive-IsReadyAfter (thrown m) awaiting q l = record {
    rests = refl;
    is_idle = refl;
    same_sent = refl;
    same_asked = refl;
  }
  receive-IsReadyAfter finished (receiving full) q l = record {
    rests = refl;
    is_idle = refl;
    same_sent = refl;
    same_asked = refl;
  }
  receive-IsReadyAfter (thrown m) (receiving full) q l = record {
    rests = refl;
    is_idle = refl;
    same_sent = refl;
    same_asked = refl;
  }
  receive-IsReadyAfter e f q l = cc

  step-IsReadyAfter :
      (e : Event) (q : Page) → is_last e q.phase ≡ true → IsReadyAfter q (step t content_of e q)
  unfolding step
  step-IsReadyAfter (refused x) q l = receive-IsReadyAfter (refused x) q.phase q l
  step-IsReadyAfter (accepted b) q l = receive-IsReadyAfter (accepted b) q.phase q l
  step-IsReadyAfter (thrown m) q l = receive-IsReadyAfter (thrown m) q.phase q l
  step-IsReadyAfter finished q l = receive-IsReadyAfter finished q.phase q l
  step-IsReadyAfter e q l = cc

  -- The calls of `loadModels` once the key `k` is typed.
  abbrev pub asked_after : String → String → List (String × String) → List (String × String)
  asked_after k model calls = if starts_with k "sk-" then calls ++ (k, model) ∷ [] else calls

  -- What the user does to send `text` with the key `k`.
  abbrev pub compose : String → String → List Event
  compose k text = type_key k ∷ type_input text ∷ send ∷ []

  begin_send-free :
      (p : Page)
      → is_blocked p ≡ false
      → ((begin_send p).sent
          ≡ p.sent ++ record { key = p.api_key; model = p.model; messages = all_messages p } ∷ [])
        × ((begin_send p).phase ≡ awaiting)
        × ((begin_send p).asked ≡ p.asked)
  unfolding begin_send
  begin_send-free p free = (rw free, rw free, rw free)

  ready-free :
      (p : Page)
      → p.streaming ≡ false
      → is_empty p.api_key ≡ false
      → is_empty (trim p.input) ≡ false
      → is_blocked p ≡ false
  unfolding is_blocked
  ready-free p rests nk nt = rw (rests, nk, nt)

  compose_lem :
      (k text : String) (q p : Page)
      → is_empty k ≡ false
      → is_empty (trim text) ≡ false
      → IsReadyAfter q p
      → ((run t content_of (compose k text) p).sent
          ≡ q.sent
            ++ record {
              key = k;
              model = p.model;
              messages = all_messages (record p { input = text });
            }
              ∷ [])
        × ((run t content_of (compose k text) p).phase ≡ awaiting)
        × ((run t content_of (compose k text) p).asked ≡ asked_after k p.model q.asked)
  unfolding run step all_messages
  compose_lem k text q p nk nt ready =
      let typed = record (handle_key_change k p) { input = text } in
      let went = begin_send-free typed (ready-free typed ready.rests nk nt) in
      (
        went.0 ∙ rw (ready.same_sent) refl,
        went.1,
        went.2 ∙ ap (asked_after k p.model) ready.same_asked,
      )

  -- Whatever events have gone before on the page, once an event ends the wait of `handleSend` the page is
  -- idle; and if the user then types a key that is not empty and a text that is not blank and sends, exactly
  -- one chat request more is posted, with that key and text, and its response is awaited. The models are
  -- asked for once more if the key starts with "sk-", and otherwise not.
  pub can_send_again :
      (es : List Event) (last : Event) (k text : String) (p : Page)
      → is_last last (run t content_of es p).phase ≡ true
      → is_empty k ≡ false
      → is_empty (trim text) ≡ false
      → let q = step t content_of last (run t content_of es p) in
        (q.streaming ≡ false)
        × (q.phase ≡ idle)
        × ((run t content_of (es ++ last ∷ compose k text) p).sent
            ≡ (run t content_of es p).sent
              ++ record {
                key = k;
                model = q.model;
                messages = all_messages (record q { input = text });
              }
                ∷ [])
        × ((run t content_of (es ++ last ∷ compose k text) p).phase ≡ awaiting)
        × ((run t content_of (es ++ last ∷ compose k text) p).asked
            ≡ asked_after k q.model (run t content_of es p).asked)
  unfolding run
  can_send_again es last k text p l nk nt =
      let before = run t content_of es p in
      let ready = step-IsReadyAfter last before l in
      let went = compose_lem k text before (step t content_of last before) nk nt ready in
      (
        ready.rests,
        ready.is_idle,
        rw run-append (went.0),
        rw run-append (went.1),
        rw run-append (went.2),
      )
