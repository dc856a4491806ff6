-- ===== src/Playground/Turns.antt =====
-- The order of the messages on the chat page of web/src/app/playground/page.tsx.
use uni_llm.Prelude.{
  Bool, List, Option, String, [], ap, arith, false, if◌then◌else◌, none, refl, some, sym, text_or,
  trim, true, ◌++◌, ◌<+>◌, ◌∙◌, ◌∷◌, ◌≡◌,
}
use uni_llm.I18n.Shape.{Messages}
use uni_llm.Playground.{
  Event, Message, Page, Phase, accepted, assistant, awaiting, begin_send, chunk, clear, conclude,
  finished, is_blocked, load_models, receive, receiving, refused, run, send, step, system, thrown,
  user,
}
use uni_llm.Playground.Dialogue.{IsConsistent, is_busy, step-IsConsistent}
use uni_llm.Playground.Exchange.{run-append}
use uni_llm.Playground.Progress.{is_last}

-- The turns of a dialogue in which user and assistant alternate, the user first: whether an answer is
-- due at its end; `none` if they do not alternate.
abbrev pub turns : Bool → List Message → Option Bool
turns due [] = some due
turns due (m ∷ ms) = elim m.role [
  | system ↦ none
  | user ↦ if due then none else turns true ms
  | assistant ↦ if due then turns false ms else none
]

turns-append :
    (due next : Bool) (ms : List Message) (m : Message)
    → turns due ms ≡ some next
    → turns due (ms ++ m ∷ []) ≡ turns next (m ∷ [])
turns-append due next [] m e = ground arith
turns-append due next (k ∷ ms) m e =
    ground (arith, turns-append true next ms m, turns-append false next ms m)

-- The messages alternate, and an answer is due exactly while a request is in flight.
abbrev pub Alternates : Page → Type 0
Alternates p = turns false p.messages ≡ some p.streaming

module _ (t : Messages) (content_of : String → String) where
  -- The events do not clear the page while an answer is awaited.
  abbrev pub IsPatient : List Event → Page → Type 0
  IsPatient [] p = Unit
  IsPatient (clear ∷ es) p = (p.streaming ≡ false) × IsPatient es (step t content_of clear p)
  IsPatient (e ∷ es) p = IsPatient es (step t content_of e p)

  begin_send-Alternates : (p : Page) → Alternates p → Alternates (begin_send p)
  unfolding begin_send is_blocked
  begin_send-Alternates p a =
      ground (
        arith,
        turns-append false false p.messages (record { role = user; content = trim p.input }),
      )

  answer-Alternates :
      (p : Page) (c : String)
      → p.streaming ≡ true
      → Alternates p
      → turns false (p.messages ++ record { role = assistant; content = c } ∷ []) ≡ some false
  answer-Alternates p c s a =
      turns-append false true p.messages (record { role = assistant; content = c }) (a ∙ ap some s)

  receive-Alternates :
      (e : Event) (f : Phase) (p : Page)
      → p.phase ≡ f
      → p.streaming ≡ is_busy p.phase
      → Alternates p
      → Alternates (receive t content_of e f p)
  unfolding receive conclude
  receive-Alternates (refused x) awaiting p g s a = answer-Alternates p _ (s ∙ ap is_busy g) a
  receive-Alternates (accepted true) awaiting p g s a = a
  receive-Alternates (accepted false) awaiting p g s a = answer-Alternates p _ (s ∙ ap is_busy g) a
  receive-Alternates (thrown m) awaiting p g s a = answer-Alternates p _ (s ∙ ap is_busy g) a
  receive-Alternates (chunk x) (receiving full) p g s a = a
  receive-Alternates finished (receiving full) p g s a = answer-Alternates p _ (s ∙ ap is_busy g) a
  receive-Alternates (thrown m) (receiving full) p g s a =
      answer-Alternates p _ (s ∙ ap is_busy g) a
  receive-Alternates e f p g s a = a

  -- From a consistent page whose messages alternate, any events that do not clear the page while an
  -- answer is awaited keep them alternating: each message of the user has one answer, the last one
  -- excepted while its request is in flight.
  pub run-Alternates :
      (es : List Event) (p : Page)
      → IsConsistent p
      → IsPatient es p
      → Alternates p
      → Alternates (run t content_of es p)
  unfolding run
  run-Alternates [] p c i a = a
  run-Alternates (clear ∷ es) p c i a =
      run-Alternates es (step t content_of clear p) (step-IsConsistent t content_of clear p c) i.1
        (unfold step in ap some (sym i.0))
  run-Alternates (send ∷ es) p c i a =
      run-Alternates es (step t content_of send p) (step-IsConsistent t content_of send p c) i
        (unfold step in begin_send-Alternates p a)
  run-Alternates (refused x ∷ es) p c i a =
      run-Alternates es (step t content_of (refused x) p)
        (step-IsConsistent t content_of (refused x) p c) i
        (unfold step in receive-Alternates (refused x) p.phase p refl c.busy a)
  run-Alternates (accepted x ∷ es) p c i a =
      run-Alternates es (step t content_of (accepted x) p)
        (step-IsConsistent t content_of (accepted x) p c) i
        (unfold step in receive-Alternates (accepted x) p.phase p refl c.busy a)
  run-Alternates (chunk x ∷ es) p c i a =
      run-Alternates es (step t content_of (chunk x) p)
        (step-IsConsistent t content_of (chunk x) p c) i
        (unfold step in receive-Alternates (chunk x) p.phase p refl c.busy a)
  run-Alternates (finished ∷ es) p c i a =
      run-Alternates es (step t content_of finished p) (step-IsConsistent t content_of finished p c)
        i (unfold step in receive-Alternates finished p.phase p refl c.busy a)
  run-Alternates (thrown x ∷ es) p c i a =
      run-Alternates es (step t content_of (thrown x) p)
        (step-IsConsistent t content_of (thrown x) p c) i
        (unfold step in receive-Alternates (thrown x) p.phase p refl c.busy a)
  run-Alternates (e ∷ es) p c i a =
      run-Alternates es (step t content_of e p) (step-IsConsistent t content_of e p c) i
        (unfold step load_models in a)

  -- An answer is awaited, and stays so over these events.
  abbrev pub StaysAwaited : List Event → Page → Type 0
  StaysAwaited [] p = p.streaming ≡ true
  StaysAwaited (e ∷ es) p = (p.streaming ≡ true) × StaysAwaited es (step t content_of e p)

  StaysAwaited-now : (es : List Event) (p : Page) → StaysAwaited es p → p.streaming ≡ true
  StaysAwaited-now [] p w = w
  StaysAwaited-now (e ∷ es) p w = w.0

  -- While the answer is awaited, no event adds a message.
  receive-silent :
      (e : Event) (f : Phase) (p : Page)
      → (receive t content_of e f p).streaming ≡ true
      → p.messages ≡ []
      → (receive t content_of e f p).messages ≡ []
  unfolding receive conclude
  receive-silent (refused x) awaiting p w m = cc
  receive-silent (accepted true) awaiting p w m = m
  receive-silent (accepted false) awaiting p w m = cc
  receive-silent (thrown x) awaiting p w m = cc
  receive-silent (chunk x) (receiving full) p w m = m
  receive-silent finished (receiving full) p w m = cc
  receive-silent (thrown x) (receiving full) p w m = cc
  receive-silent e f p w m = m

  step-silent :
      (e : Event) (p : Page)
      → p.streaming ≡ true
      → (step t content_of e p).streaming ≡ true
      → p.messages ≡ []
      → (step t content_of e p).messages ≡ []
  unfolding step load_models begin_send is_blocked
  step-silent clear p s w m = refl
  step-silent send p s w m = rw (s, begin_send, is_blocked) (ground arith)
  step-silent (refused x) p s w m = receive-silent (refused x) p.phase p w m
  step-silent (accepted x) p s w m = receive-silent (accepted x) p.phase p w m
  step-silent (chunk x) p s w m = receive-silent (chunk x) p.phase p w m
  step-silent finished p s w m = receive-silent finished p.phase p w m
  step-silent (thrown x) p s w m = receive-silent (thrown x) p.phase p w m
  step-silent e p s w m = m

  run-silent :
      (es : List Event) (p : Page)
      → StaysAwaited es p
      → p.messages ≡ []
      → (run t content_of es p).messages ≡ []
  unfolding run
  run-silent [] p w m = m
  run-silent (e ∷ es) p w m =
      let q = step t content_of e p in
      run-silent es q w.1 (step-silent e p w.0 (StaysAwaited-now es q w.1) m)

  -- The messages are one answer alone.
  abbrev pub IsOrphan : Page → Type 0
  IsOrphan p = (answer : String) × (p.messages ≡ record { role = assistant; content = answer } ∷ [])

  receive-IsOrphan :
      (e : Event) (f : Phase) (p : Page)
      → is_last e f ≡ true
      → p.messages ≡ []
      → IsOrphan (receive t content_of e f p)
  unfolding receive conclude
  receive-IsOrphan (refused x) awaiting p l m = ("Error: " <+> x, rw m refl)
  receive-IsOrphan (accepted true) awaiting p l m = cc
  receive-IsOrphan (accepted false) awaiting p l m =
      (text_or "" t.playground.empty_response, rw m refl)
  receive-IsOrphan (thrown x) awaiting p l m = ("Error: " <+> x, rw m refl)
  receive-IsOrphan finished (receiving full) p l m =
      (text_or full t.playground.empty_response, rw m refl)
  receive-IsOrphan (thrown x) (receiving full) p l m = ("Error: " <+> x, rw m refl)
  receive-IsOrphan e f p l m = cc

  step-IsOrphan :
      (e : Event) (p : Page)
      → is_last e p.phase ≡ true
      → p.messages ≡ []
      → IsOrphan (step t content_of e p)
  unfolding step
  step-IsOrphan (refused x) p l m = receive-IsOrphan (refused x) p.phase p l m
  step-IsOrphan (accepted x) p l m = receive-IsOrphan (accepted x) p.phase p l m
  step-IsOrphan (thrown x) p l m = receive-IsOrphan (thrown x) p.phase p l m
  step-IsOrphan finished p l m = receive-IsOrphan finished p.phase p l m
  step-IsOrphan e p l m = cc

  IsOrphan-turns : (p : Page) → IsOrphan p → turns false p.messages ≡ none
  IsOrphan-turns p (answer, e) = rw e refl

  -- Clearing the page while an answer is awaited orphans the answer. Whatever follows while it is still
  -- awaited, pieces of it, typing, clearing and trying to send included, once an event ends the wait the
  -- answer, or the error in its place, is the only message: a dialogue that begins with the assistant, so
  -- the messages do not alternate.
  pub clear_orphans_answer :
      (es : List Event) (last : Event) (p : Page)
      → StaysAwaited (clear ∷ es) p
      → is_last last (run t content_of (clear ∷ es) p).phase ≡ true
      → IsOrphan (run t content_of (clear ∷ (es ++ last ∷ [])) p)
        × (turns false (run t content_of (clear ∷ (es ++ last ∷ [])) p).messages ≡ none)
  unfolding run
  clear_orphans_answer es last p w l =
      let cleared = step t content_of clear p in
      let orphan =
        step-IsOrphan last (run t content_of es cleared) l
          (run-silent es cleared w.1 (unfold step in refl)) in
      let same = run-append t content_of es (last ∷ []) cleared in
      let ended = step t content_of last (run t content_of es cleared) in
      rw same (orphan, IsOrphan-turns ended orphan)
