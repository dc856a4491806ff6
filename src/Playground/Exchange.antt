-- ===== src/Playground/Exchange.antt =====
-- A whole exchange on the chat page of web/src/app/playground/page.tsx: one message of the user, the
-- chunks of the answer, and the end of the stream.
use mathlib.Core.List.{append_assoc}
use uni_llm.Prelude.{
  List, String, [], ap, false, map, refl, text_or, trim, true, ◌++◌, ◌<+>◌, ◌∙◌, ◌∷◌, ◌≡◌,
}
use uni_llm.I18n.Shape.{Messages}
use uni_llm.Playground.{
  Event, Page, accepted, all_messages, assistant, begin_send, chunk, conclude, finished, idle,
  is_blocked, receive, receiving, run, send, step, thrown, user,
}
use uni_llm.Playground.Stream.{Reading, feed, feed_all}

module _ (t : Messages) (content_of : String → String) where
  pub run-append :
      (es fs : List Event) (p : Page)
      → run t content_of (es ++ fs) p ≡ run t content_of fs (run t content_of es p)
  unfolding run
  run-append [] fs p = refl
  run-append (e ∷ es) fs p = run-append es fs (step t content_of e p)

  run-chunks :
      (cs : List String) (p : Page) (full : String)
      → run t content_of (map chunk cs) (record p { phase = receiving full }) ≡ record p {
        phase =
            receiving (feed_all content_of (record { full = full; shown = p.stream_text }) cs).full;
        stream_text =
            (feed_all content_of (record { full = full; shown = p.stream_text }) cs).shown;
      }
  unfolding run feed_all step receive
  run-chunks [] p full = refl
  run-chunks (c ∷ cs) p full =
      let r = feed content_of (record { full = full; shown = p.stream_text }) c in
      run-chunks cs (record p { stream_text = r.shown }) r.full

  -- What the reader has when the chunks are in.
  abbrev pub collected : List String → Reading
  collected cs = feed_all content_of (record { full = ""; shown = "" }) cs

  abbrev pub sent_page : Page → Page
  sent_page p = record p {
    messages = p.messages ++ record { role = user; content = trim p.input } ∷ [];
    input = "";
    streaming = true;
    stream_text = "";
    phase = receiving "";
    sent = p.sent ++ record { key = p.api_key; model = p.model; messages = all_messages p } ∷ [];
  }

  opened :
      (p : Page)
      → is_blocked p ≡ false
      → run t content_of (send ∷ accepted true ∷ []) p ≡ sent_page p
  unfolding run step begin_send receive
  opened p free = rw free

  streamed :
      (cs : List String) (last : Event) (p : Page)
      → is_blocked p ≡ false
      → run t content_of (send ∷ accepted true ∷ (map chunk cs ++ last ∷ [])) p
        ≡ step t content_of last (record (sent_page p) {
          phase = receiving (collected cs).full;
          stream_text = (collected cs).shown;
        })
  streamed cs last p free =
      run-append (send ∷ accepted true ∷ []) (map chunk cs ++ last ∷ []) p
      ∙ ap (run t content_of (map chunk cs ++ last ∷ [])) (opened p free)
      ∙ run-append (map chunk cs) (last ∷ []) (sent_page p)
      ∙ ap (run t content_of (last ∷ [])) (run-chunks cs (sent_page p) "")
      ∙ unfold run in refl

  -- A send that is not blocked, followed by a response with any chunks and the end of its body, adds the
  -- trimmed message and one answer, which is all that the chunks hold or the notice of an empty
  -- response; it empties the input and the live text, leaves the page ready, and sends one request
  -- with the system prompt, the earlier messages and the new one.
  pub exchange :
      (cs : List String) (p : Page)
      → is_blocked p ≡ false
      → run t content_of (send ∷ accepted true ∷ (map chunk cs ++ finished ∷ [])) p ≡ record p {
        messages =
            p.messages
            ++ record { role = user; content = trim p.input }
              ∷ record {
                role = assistant;
                content = text_or (collected cs).full t.playground.empty_response;
              }
              ∷ [];
        input = "";
        streaming = false;
        stream_text = "";
        phase = idle;
        sent =
            p.sent ++ record { key = p.api_key; model = p.model; messages = all_messages p } ∷ [];
      }
  exchange cs p free = streamed cs finished p free ∙ unfold step receive conclude in rw append_assoc

  -- If the stream breaks off instead, the answer is the error alone: what the chunks held is not kept
  -- as a message, and the page is ready again.
  pub exchange_broken :
      (cs : List String) (m : String) (p : Page)
      → is_blocked p ≡ false
      → ((run t content_of (send ∷ accepted true ∷ (map chunk cs ++ thrown m ∷ [])) p).messages
          ≡ p.messages
            ++ record { role = user; content = trim p.input }
              ∷ record { role = assistant; content = "Error: " <+> m }
              ∷ [])
        × ((run t content_of (send ∷ accepted true ∷ (map chunk cs ++ thrown m ∷ [])) p).streaming
            ≡ false)
  exchange_broken cs m p free = (
    ap (λ (q : Page). q.messages) (streamed cs (thrown m) p free)
        ∙ unfold step receive in append_assoc p.messages _ _,
    ap (λ (q : Page). q.streaming) (streamed cs (thrown m) p free) ∙ unfold step receive in refl,
  )
