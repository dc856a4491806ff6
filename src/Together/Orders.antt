-- ===== src/Together/Orders.antt =====
-- The client and the user behind a page that awaits five calls: what they may do, and what is left of it in any order.
use mathlib.Core.Option.{none-ne-some}
use mathlib.Core.Bool.{false≢true}
use uni_llm.Prelude.{
  Bool, Bool-cases, List, Option, Option-cases, String, [], arith, if◌then◌else◌, inl, inr, none,
  refl, remove-remove, some, some_of, sym, true, ◌∙◌, ◌∷◌, ◌≡◌,
}
use uni_llm.Net.{Browser, Host, Outcome, Reply, Session}
use uni_llm.Together.{Five, settle_five}
use uni_llm.Together.Arrivals.{Awaiting, Event, Nth, arrives, breaks, edits, nth}
use uni_llm.Api.{sign_off}
use uni_llm.Together.Marks.{every, same_nth, same_nth-eq}

abbrev pub arrivals : {Edit : Type 0} → List (Event Edit) → List Nth
arrivals [] = []
arrivals (arrives i ∷ xs) = i ∷ arrivals xs
arrivals (edits e ∷ xs) = arrivals xs

pub sign_off-sign_off : (b : Browser) → sign_off (sign_off b) ≡ sign_off b
unfolding sign_off
sign_off-sign_off b = ground (arith, remove-remove "token" b.storage)

module _ {h : Host} {Page Edit : Type 0} (w : Awaiting h Page Edit) where
  -- The client's handling depends on the answer alone and does no more to the session than to sign off
  -- the browser, and what the user does meanwhile touches nothing that the code after the `await` sets.
  pub record IsOrderly : Type 0 where
    pub outcome : Reply h.Json → Outcome h.Json
    pub expires : Reply h.Json → Bool
    pub handled :
        (r : Reply h.Json) (s : Session h)
        → w.handle r s
          ≡ (outcome r, record s { browser = if expires r then sign_off s.browser else s.browser })
    pub left : (b : Browser) → w.leave (sign_off b) ≡ sign_off (w.leave b)
    pub fulfilled-edit :
        (r : Five (Outcome h.Json)) (e : Edit) (p : Page)
        → w.edit e (w.on_fulfilled r p) ≡ w.on_fulfilled r (w.edit e p)
    pub rejected-edit :
        (m : String) (e : Edit) (p : Page)
        → w.edit e (w.on_rejected m p) ≡ w.on_rejected m (w.edit e p)

  -- All that the user does, in order.
  abbrev pub edited : List (Event Edit) → Page → Page
  edited [] p = p
  edited (arrives i ∷ xs) p = edited xs p
  edited (edits e ∷ xs) p = edited xs (w.edit e p)

  module _ (good : IsOrderly) (replies : Five (Reply h.Json)) where
    abbrev pub results : Five (Outcome h.Json)
    results = record {
      first = good.outcome replies.first;
      second = good.outcome replies.second;
      third = good.outcome replies.third;
      fourth = good.outcome replies.fourth;
      fifth = good.outcome replies.fifth;
    }

    -- The message of the first failure that comes.
    abbrev pub first_break : List Nth → Option String
    first_break [] = none
    first_break (i ∷ is) = elim (breaks w i (nth results i)) [
      | some m ↦ some m
      | none ↦ first_break is
    ]

    abbrev pub turned : Nth → Browser → Browser
    turned i b = if good.expires (nth replies i) then sign_off b else b

    abbrev pub gone : List Nth → Browser → Browser
    gone [] b = b
    gone (i ∷ is) b = gone is (turned i b)

    pub edited-rejected :
        (xs : List (Event Edit)) (m : String) (p : Page)
        → edited xs (w.on_rejected m p) ≡ w.on_rejected m (edited xs p)
    edited-rejected [] m p = refl
    edited-rejected (arrives i ∷ xs) m p = edited-rejected xs m p
    edited-rejected (edits e ∷ xs) m p =
        rw (good.rejected-edit m e p) (edited-rejected xs m (w.edit e p))

    pub edited-fulfilled :
        (xs : List (Event Edit)) (r : Five (Outcome h.Json)) (p : Page)
        → edited xs (w.on_fulfilled r p) ≡ w.on_fulfilled r (edited xs p)
    edited-fulfilled [] r p = refl
    edited-fulfilled (arrives i ∷ xs) r p = edited-fulfilled xs r p
    edited-fulfilled (edits e ∷ xs) r p =
        rw (good.fulfilled-edit r e p) (edited-fulfilled xs r (w.edit e p))

    turned-leave : (i : Nth) (b : Browser) → turned i (w.leave b) ≡ w.leave (turned i b)
    turned-leave i b = ground (arith, good.left b)

    pub gone-leave : (is : List Nth) (b : Browser) → gone is (w.leave b) ≡ w.leave (gone is b)
    gone-leave [] b = refl
    gone-leave (i ∷ is) b = rw (turned-leave i b) (gone-leave is (turned i b))

    pub first_break-none :
        (is : List Nth) → ((j : Nth) → breaks w j (nth results j) ≡ none) → first_break is ≡ none
    first_break-none [] e = refl
    first_break-none (i ∷ is) e = rw (e i, first_break) (first_break-none is e)

    pub first_break-some :
        (is : List Nth) (m : String)
        → first_break is ≡ some m
        → (i : Nth) × (breaks w i (nth results i) ≡ some m)
    first_break-some [] m e = cc
    first_break-some (i ∷ is) m e = elim (Option-cases (breaks w i (nth results i))) [
      | inr (k, f) ↦ (i, f ∙ (rw (f, first_break) at e))
      | inl f ↦ first_break-some is m (rw (f, first_break) at e)
    ]

    abbrev pub is_expired : Nth → Bool
    is_expired i = good.expires (nth replies i)

    pub gone-some_of :
        (is : List Nth) (b : Browser)
        → gone is b ≡ (if some_of is_expired is then sign_off b else b)
    gone-some_of [] b = refl
    gone-some_of (i ∷ is) b =
        rw (gone-some_of is (turned i b)) (ground (arith, sign_off-sign_off b))

    pub first_break-none_each :
        (is : List Nth) (j : Nth)
        → first_break is ≡ none
        → some_of (λ i. same_nth i j) is ≡ true
        → breaks w j (nth results j) ≡ none
    first_break-none_each [] j e k = absurd (false≢true k)
    first_break-none_each (i ∷ is) j e k = elim (Option-cases (breaks w i (nth results i))) [
      | inr (m, f) ↦ absurd (none-ne-some m (sym (rw (f, first_break) at e)))
      | inl f ↦ elim (Bool-cases (same_nth i j)) [
        | inl same ↦ rw (← same_nth-eq i j same) f
        | inr other ↦ first_break-none_each is j (rw (f, first_break) at e) (rw other at k)
      ]
    ]

    pub settle_five-results :
        (s : Session h)
        → settle_five h w.handle replies s ≡ (results, record s { browser = gone every s.browser })
    unfolding settle_five
    settle_five-results s = simp good.handled
