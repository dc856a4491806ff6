-- ===== src/Status/Overlaps.antt =====
-- The polls of web/src/app/status/page.tsx when an answer takes longer than the 30 seconds to the next one:
-- several requests are on their way, and their answers come in any order.
use uni_llm.Prelude.{
  take_out, List, [], length, none, some, ℕ, zero, suc, ◌++◌, ◌∷◌, ◌≡◌, ◌≤◌, ◌<◌, ◌∙◌, refl, arith,
  ap,
}
use uni_llm.Net.{Host, Reply, Session, fetch, parsed, rejected, response, unparsable}
use uni_llm.I18n.Shape.{Messages}
use uni_llm.Status.Polls.{good}
use uni_llm.Status.{StatusData, StatusPage, fetch_status, poll_all, receive_status, status_request}

-- The timer fires, or the answer to one of the requests that are on their way comes, counted from the oldest.
pub data Happening (Time : Type 0) : Type 0 where
  polled : Happening Time
  answered : ℕ → Time → Happening Time

length-snoc : {A : Type 0} (xs : List A) (x : A) → length (xs ++ x ∷ []) ≡ suc (length xs)
length-snoc [] x = refl
length-snoc (y ∷ xs) x = ap suc (length-snoc xs x)

module _ (h : Host) (Time : Type 0) (t : Messages) (read : h.Json → StatusData h.Number) where
  pub record Watching : Type 0 where
    pub page : StatusPage h.Number Time
    pub session : Session h
    pub in_flight : List (Reply h.Json)

  -- A call of `fetchStatus` up to its `await`, or from it on.
  unfoldable pub watch : Happening Time → Watching → Watching
  watch polled g =
      let (reply, s) = fetch h status_request g.session in
      record g { session = s; in_flight = g.in_flight ++ reply ∷ [] }
  watch (answered i now) g = elim (take_out i g.in_flight) [
    | none ↦ g
    | some q ↦ record g { page = receive_status h Time t read q.0 now g.page; in_flight = q.1 }
  ]

  unfoldable pub watch_all : List (Happening Time) → Watching → Watching
  unfolding watch
  watch_all [] g = g
  watch_all (x ∷ xs) g = watch_all xs (watch x g)

  -- The times of the answers.
  abbrev pub times : List (Happening Time) → List Time
  times [] = []
  times (polled ∷ xs) = times xs
  times (answered i now ∷ xs) = now ∷ times xs

  -- With `n` requests on their way: every answer is that of the oldest, and all come.
  abbrev pub IsInOrder : ℕ → List (Happening Time) → Type 0
  IsInOrder n [] = n ≡ 0
  IsInOrder n (polled ∷ xs) = IsInOrder (suc n) xs
  IsInOrder zero (answered i now ∷ xs) = ⊥
  IsInOrder (suc n) (answered i now ∷ xs) = (i ≡ 0) × IsInOrder n xs

  -- Polls whose first answers are there already.
  feed :
      List (Reply h.Json)
      → List Time
      → StatusPage h.Number Time
      → Session h
      → StatusPage h.Number Time × Session h
  feed [] later p s = poll_all h Time t read later p s
  feed (r ∷ rs) [] p s = (p, s)
  feed (r ∷ rs) (now ∷ later) p s = feed rs later (receive_status h Time t read r now p) s

  IsInOrder-times : (n : ℕ) (xs : List (Happening Time)) → IsInOrder n xs → n ≤ length (times xs)
  IsInOrder-times n [] e = omega arith
  IsInOrder-times n (polled ∷ xs) e = let k = IsInOrder-times (suc n) xs e in omega arith
  IsInOrder-times zero (answered i now ∷ xs) e = absurd e
  IsInOrder-times (suc n) (answered i now ∷ xs) e = let k = IsInOrder-times n xs e.1 in omega arith

  feed-poll :
      (rs : List (Reply h.Json)) (later : List Time) (p : StatusPage h.Number Time) (s : Session h)
      → length rs < length later
      → feed (rs ++ (fetch h status_request s).0 ∷ []) later p (fetch h status_request s).1
        ≡ feed rs later p s
  unfolding feed poll_all fetch_status
  feed-poll [] [] p s k = absurd (omega arith)
  feed-poll [] (now ∷ later) p s k = refl
  feed-poll (r ∷ rs) [] p s k = absurd (omega arith)
  feed-poll (r ∷ rs) (now ∷ later) p s k =
      feed-poll rs later (receive_status h Time t read r now p) s (omega arith)

  watch_all-feed :
      (xs : List (Happening Time)) (rs : List (Reply h.Json)) (p : StatusPage h.Number Time)
      (s : Session h)
      → IsInOrder (length rs) xs
      → (let g = watch_all xs (record { page = p; session = s; in_flight = rs }) in
          (g.page, g.session))
        ≡ feed rs (times xs) p s
  unfolding watch_all watch feed
  watch_all-feed [] [] p s e = unfold poll_all in refl
  watch_all-feed [] (r ∷ rs) p s e = refl
  watch_all-feed (polled ∷ xs) rs p s e =
      watch_all-feed xs (rs ++ (fetch h status_request s).0 ∷ []) p (fetch h status_request s).1
        (rw (length-snoc rs (fetch h status_request s).0) e)
      ∙ feed-poll rs (times xs) p s (IsInOrder-times _ xs e)
  watch_all-feed (answered i now ∷ xs) [] p s e = absurd e
  watch_all-feed (answered i now ∷ xs) (r ∷ rs) p s e =
      rw (e.0) (watch_all-feed xs rs (receive_status h Time t read r now p) s e.1)

  -- With nothing on its way.
  abbrev pub idle : StatusPage h.Number Time → Session h → Watching
  idle p s = record { page = p; session = s; in_flight = [] }

  -- However many requests are on their way at a time, if the answers come in the order of the requests and
  -- all come, the page and the session are in the end those of polls that are answered one by one.
  pub watch_all-poll_all :
      (xs : List (Happening Time)) (p : StatusPage h.Number Time) (s : Session h)
      → IsInOrder 0 xs
      → ((watch_all xs (idle p s)).page, (watch_all xs (idle p s)).session)
        ≡ poll_all h Time t read (times xs) p s
  watch_all-poll_all xs p s e = unfold feed in watch_all-feed xs [] p s e

  receive_status-good :
      (r : Reply h.Json) (d : StatusData h.Number) (now : Time) (p : StatusPage h.Number Time)
      → good h Time t read r ≡ some d
      → (receive_status h Time t read r now p).content ≡ some d
  unfolding receive_status
  receive_status-good (rejected m) d now p e = cc
  receive_status-good (response status (parsed j)) d now p e = ground arith
  receive_status-good (response status (unparsable m)) d now p e = cc

  -- If the answer to the second of two polls comes first, and the answer to the first one is successful, the
  -- page ends with the data of the first poll, whatever the second one has said.
  pub watch_all-overtaken :
      (p : StatusPage h.Number Time) (s : Session h) (a b : Time) (d : StatusData h.Number)
      → good h Time t read (fetch h status_request s).0 ≡ some d
      → (watch_all (polled ∷ polled ∷ answered 1 a ∷ answered 0 b ∷ []) (idle p s)).page.content
        ≡ some d
  unfolding watch_all watch
  watch_all-overtaken p s a b d e = receive_status-good (fetch h status_request s).0 d b _ e
