-- ===== src/Together/Endings.antt =====
-- What a page that awaits five calls shows in the end, whatever the order of the answers.
use mathlib.Core.List.{Perm}
use mathlib.Core.Bool.{false≢true}
use uni_llm.Prelude.{
  Bool, Bool-cases, List, Option, Option-cases, Perm-some_of, String, [], ap, false, inl, inr, none,
  refl, some, true, ◌∙◌, ◌∷◌, ◌≡◌,
}
use uni_llm.Net.{Host, Outcome, Reply, Session}
use uni_llm.Together.{Five}
use uni_llm.Together.Arrivals.{
  Awaiting, Event, Nth, Pending, arrives, await_all, breaks, edits, fill, five, four, happen,
  happen_all, nth, one, settle, three, two,
}
use uni_llm.Together.Marks.{
  all_five, all_five-each, all_five-marks, complete-fill, each-all_five, every, fill-slots, mark,
  marks, marks-kept, no_mark, same_nth, same_nth-eq, slots,
}
use uni_llm.Together.Orders.{
  IsOrderly, arrivals, edited, edited-fulfilled, edited-rejected, first_break, first_break-none,
  gone, gone-leave, gone-some_of, is_expired, results, turned,
}

module _ {h : Host} {Page Edit : Type 0} (w : Awaiting h Page Edit) (good : IsOrderly w)
    (replies : Five (Reply h.Json)) where
  abbrev shown_of : Pending h Page → Page × Session h
  shown_of g = (g.page, g.session)

  abbrev run :
      List (Event Edit)
      → Five (Option (Outcome h.Json))
      → Bool
      → Page
      → Session h
      → Page × Session h
  run xs c o p s =
      shown_of (happen_all w replies xs (record { came = c; is_over = o; page = p; session = s }))

  nth-results : (i : Nth) → good.outcome (nth replies i) ≡ nth (results w good replies) i
  nth-results one = refl
  nth-results two = refl
  nth-results three = refl
  nth-results four = refl
  nth-results five = refl

  arrived : Nth → Pending h Page → Pending h Page
  arrived i g = settle w i (nth (results w good replies) i) (record g {
    session = record g.session { browser = (turned w good replies) i g.session.browser };
  })

  happen-arrives : (i : Nth) (g : Pending h Page) → happen w replies (arrives i) g ≡ arrived i g
  unfolding happen arrived
  happen-arrives i g =
      ap (λ q. settle w i q.0 (record g { session = q.1 })) (good.handled (nth replies i) g.session)
      ∙ ap
          (λ o. settle w i o (record g {
            session = record g.session { browser = (turned w good replies) i g.session.browser };
          }))
          (nth-results i)

  run-arrives :
      (i : Nth) (xs : List (Event Edit)) (g : Pending h Page)
      → shown_of (happen_all w replies (arrives i ∷ xs) g)
        ≡ shown_of (happen_all w replies xs (arrived i g))
  unfolding happen_all
  run-arrives i xs g = ap (λ x. shown_of (happen_all w replies xs x)) (happen-arrives i g)

  -- Once the promise is fulfilled or rejected, answers only reach the browser.
  run-over :
      (xs : List (Event Edit)) (c : Five (Option (Outcome h.Json))) (p : Page) (s : Session h)
      → run xs c true p s
        ≡ (edited w xs p, record s { browser = (gone w good replies) (arrivals xs) s.browser })
  unfolding happen_all happen arrived settle
  run-over [] c p s = refl
  run-over (edits e ∷ xs) c p s = run-over xs c (w.edit e p) s
  run-over (arrives i ∷ xs) c p s =
      run-arrives i xs (record { came = c; is_over = true; page = p; session = s })
      ∙ run-over xs (fill i (nth (results w good replies) i) c) p
          (record s { browser = (turned w good replies) i s.browser })

  -- What is left in the end: the failure that came first, if one came, or else all (results w good replies), if they came.
  abbrev pub ending : Option String → Bool → Page → Session h → Page × Session h
  ending (some m) b p s = (w.on_rejected m p, record s { browser = w.leave s.browser })
  ending none true p s = (w.on_fulfilled (results w good replies) p, s)
  ending none false p s = (p, s)

  abbrev IsSafe : (Nth → Bool) → Type 0
  IsSafe f = (j : Nth) → f j ≡ true → breaks w j (nth (results w good replies) j) ≡ none

  IsSafe-mark :
      (i : Nth) (f : Nth → Bool)
      → IsSafe f
      → breaks w i (nth (results w good replies) i) ≡ none
      → IsSafe (mark i f)
  IsSafe-mark i f k e j m = elim (Bool-cases (same_nth i j)) [
    | inl same ↦ rw (← same_nth-eq i j same) e
    | inr other ↦ k j (rw other at m)
  ]

  abbrev turn : Nth → Session h → Session h
  turn i s = record s { browser = (turned w good replies) i s.browser }

  abbrev waiting : (Nth → Bool) → Page → Session h → Pending h Page
  waiting f p s = record {
    came = slots (results w good replies) f;
    is_over = false;
    page = p;
    session = s;
  }

  abbrev over : (Nth → Bool) → Page → Session h → Pending h Page
  over f p s = record {
    came = slots (results w good replies) f;
    is_over = true;
    page = p;
    session = s;
  }

  arrived-breaks :
      (i : Nth) (f : Nth → Bool) (p : Page) (s : Session h) (m : String)
      → breaks w i (nth (results w good replies) i) ≡ some m
      → arrived i (waiting f p s)
        ≡ over
            (mark i f)
            (w.on_rejected m p)
            (record s { browser = w.leave ((turned w good replies) i s.browser) })
  unfolding arrived settle
  arrived-breaks i f p s m e = rw (e, fill-slots (results w good replies) i f) refl

  arrived-completes :
      (i : Nth) (f : Nth → Bool) (p : Page) (s : Session h)
      → breaks w i (nth (results w good replies) i) ≡ none
      → all_five (mark i f) ≡ true
      → arrived i (waiting f p s)
        ≡ over (mark i f) (w.on_fulfilled (results w good replies) p) (turn i s)
  unfolding arrived settle
  arrived-completes i f p s e a =
      rw (e, complete-fill (results w good replies) i f, a, fill-slots (results w good replies) i f)
        refl

  arrived-waits :
      (i : Nth) (f : Nth → Bool) (p : Page) (s : Session h)
      → breaks w i (nth (results w good replies) i) ≡ none
      → all_five (mark i f) ≡ false
      → arrived i (waiting f p s) ≡ waiting (mark i f) p (turn i s)
  unfolding arrived settle
  arrived-waits i f p s e a =
      rw (e, complete-fill (results w good replies) i f, a, fill-slots (results w good replies) i f)
        refl

  continue :
      (xs : List (Event Edit)) {g g' : Pending h Page}
      → g ≡ g'
      → shown_of (happen_all w replies xs g) ≡ shown_of (happen_all w replies xs g')
  continue xs e = ap (λ x. shown_of (happen_all w replies xs x)) e

  gone_all : List (Event Edit) → Session h → Session h
  gone_all xs s = record s { browser = (gone w good replies) (arrivals xs) s.browser }

  run-waiting :
      (xs : List (Event Edit)) (f : Nth → Bool) (p : Page) (s : Session h)
      → IsSafe f
      → all_five f ≡ false
      → run xs (slots (results w good replies) f) false p s
        ≡ ending
            ((first_break w good replies) (arrivals xs))
            (all_five (marks (arrivals xs) f))
            (edited w xs p)
            (gone_all xs s)
  unfolding happen_all happen gone_all
  run-waiting [] f p s k a = rw a refl
  run-waiting (edits e ∷ xs) f p s k a = run-waiting xs f (w.edit e p) s k a
  run-waiting (arrives i ∷ xs) f p s k a =
      run-arrives i xs (waiting f p s)
      ∙ elim (Option-cases (breaks w i (nth (results w good replies) i))) [
        | inr (m, e) ↦
            continue xs (arrived-breaks i f p s m e)
            ∙ run-over xs _ (w.on_rejected m p)
                (record s { browser = w.leave ((turned w good replies) i s.browser) })
            ∙ rw (e, first_break, (edited-rejected w good replies), (gone-leave w good replies))
                refl
        | inl e ↦ elim (Bool-cases (all_five (mark i f))) [
          | inl c ↦
              continue xs (arrived-completes i f p s e c)
              ∙ run-over xs _ (w.on_fulfilled (results w good replies) p) (turn i s)
              ∙ rw
                  (
                    (first_break-none w good replies) (i ∷ arrivals xs)
                        (λ j. IsSafe-mark i f k e j (all_five-each (mark i f) c j)),
                    each-all_five _
                        (λ j. marks-kept (arrivals xs) (mark i f) j (all_five-each (mark i f) c j)),
                    (edited-fulfilled w good replies),
                  )
                  refl
          | inr c ↦
              continue xs (arrived-waits i f p s e c)
              ∙ run-waiting xs (mark i f) p (turn i s) (IsSafe-mark i f k e) c
              ∙ rw (e, first_break) refl
        ]
      ]

  pub await_all-ending :
      (events : List (Event Edit)) (p : Page) (s : Session h)
      → Perm (arrivals events) every
      → await_all w replies events p s
        ≡ ending
            ((first_break w good replies) (arrivals events))
            true
            (edited w events p)
            (record s { browser = (gone w good replies) every s.browser })
  unfolding await_all gone_all
  await_all-ending events p s d =
      run-waiting events no_mark p s (λ j e. absurd (false≢true e)) refl
      ∙ rw
          (
            all_five-marks _ d,
            (gone-some_of w good replies) (arrivals events),
            Perm-some_of (is_expired w good replies) d,
            (gone-some_of w good replies) every,
          )
          refl
