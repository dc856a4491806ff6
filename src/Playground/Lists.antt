-- ===== src/Playground/Lists.antt =====
-- `loadModels` of web/src/app/playground/page.tsx as a call over the network: each key that is typed and
-- looks complete asks for its models, and the answers come in any order. `ids_of` stands for the member
-- `data` of the answer, with `none` for a falsy one, and the `id` of each of its items.
use mathlib.Core.List.{append_assoc, append-nil}
use uni_llm.Prelude.{
  Bool, Bool-cases, List, Option, Option-cases, String, [], if◌then◌else◌, inl, inr, keep, map,
  none, or_else, refl, some, starts_with, sym, take_out, ℕ, ◌++◌, ◌<+>◌, ◌∙◌, ◌∷◌, ◌≡◌,
}
use uni_llm.Net.{Host, Reply, Request, Session, fetch, parsed, rejected, response, unparsable}
use uni_llm.Playground.{Page, handle_key_change, load_models}

abbrev pub models_request : {Number : Type 0} → String → Request Number
models_request key = record {
  url = "/v1/models";
  method = none;
  headers = ("Authorization", "Bearer " <+> key) ∷ [];
  body = none;
}

-- What the visitor types as the key, or the answer to one of the calls on their way, counted from the oldest.
pub data Moment : Type 0 where
  types_key : String → Moment
  answers : ℕ → Moment

module _ (h : Host) (ids_of : h.Json → Option (List String)) where
  -- `loadModels` from its first `await` on; its `catch` ignores the error. The status is not looked at.
  unfoldable pub receive_models : String → Reply h.Json → Page → Page
  receive_models captured (rejected m) p = p
  receive_models captured (response status (unparsable m)) p = p
  receive_models captured (response status (parsed j)) p =
      load_models captured (or_else (ids_of j) []) p

  -- The calls on their way, each with the value of `model` that it has captured.
  pub record Asking : Type 0 where
    pub page : Page
    pub session : Session h
    pub calls : List (String × Reply h.Json)

  unfoldable pub ask_models : String → Asking → Asking
  ask_models key g =
      let (reply, s) = fetch h (models_request key) g.session in
      record g { session = s; calls = g.calls ++ (g.page.model, reply) ∷ [] }

  unfoldable pub live : Moment → Asking → Asking
  unfolding ask_models receive_models
  live (types_key k) g =
      let asked = ask_models k (record g { page = handle_key_change k g.page }) in
      if starts_with k "sk-" then asked else record g { page = handle_key_change k g.page }
  live (answers i) g = elim (take_out i g.calls) [
    | none ↦ g
    | some q ↦ record g { page = receive_models q.0.0 q.0.1 g.page; calls = q.1 }
  ]

  unfoldable pub live_all : List Moment → Asking → Asking
  unfolding live
  live_all [] g = g
  live_all (x ∷ xs) g = live_all xs (live x g)

  abbrev is_whole : String → Bool
  is_whole k = starts_with k "sk-"

  -- The keys that are typed.
  abbrev pub typed : List Moment → List String
  typed [] = []
  typed (types_key k ∷ xs) = k ∷ typed xs
  typed (answers i ∷ xs) = typed xs

  session-answers : (i : ℕ) (g : Asking) → (live (answers i) g).session ≡ g.session
  unfolding live
  session-answers i g = elim (Option-cases (take_out i g.calls)) [
    | inl e ↦ rw (e, live) refl
    | inr (q, e) ↦ rw (e, live) refl
  ]

  sent-types :
      (k : String) (g : Asking)
      → (live (types_key k) g).session.sent
        ≡ g.session.sent ++ map models_request (keep is_whole (k ∷ []))
  unfolding live fetch
  sent-types k g = elim (Bool-cases (is_whole k)) [
    | inl e ↦ rw e refl
    | inr e ↦ rw e (sym (append-nil _))
  ]

  -- Whatever is typed in the key field and however the answers come: the requests that go out are one for the
  -- models per text of the field that starts with "sk-", with that text as the key, in the order of typing,
  -- and nothing else.
  pub sent-live_all :
      (xs : List Moment) (g : Asking)
      → (live_all xs g).session.sent
        ≡ g.session.sent ++ map models_request (keep is_whole (typed xs))
  unfolding live_all
  sent-live_all [] g = sym (append-nil _)
  sent-live_all (answers i ∷ xs) g =
      sent-live_all xs (live (answers i) g) ∙ rw (session-answers i g) refl
  sent-live_all (types_key k ∷ xs) g =
      sent-live_all xs (live (types_key k) g)
      ∙ rw (sent-types k g) (elim (Bool-cases (is_whole k)) [
        | inl e ↦ rw e (
            append_assoc g.session.sent (models_request k ∷ [])
              (map models_request (keep is_whole (typed xs))))
        | inr e ↦ rw (e, append-nil) refl
      ])

  -- No call is on its way.
  abbrev pub quiet : Page → Session h → Asking
  quiet p s = record { page = p; session = s; calls = [] }
