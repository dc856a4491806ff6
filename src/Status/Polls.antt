-- ===== src/Status/Polls.antt =====
-- What the status page of web/src/app/status/page.tsx shows after any number of polls.
use mathlib.Core.Option
use uni_llm.Prelude.{
  Bool-cases, List, Option, [], if◌then◌else◌, inl, inr, none, refl, some, ◌∷◌, ◌≡◌,
}
use uni_llm.Net.{Host, Reply, Session, fetch, is_ok_status, parsed, rejected, response, unparsable}
use uni_llm.I18n.Shape.{Messages}
use uni_llm.Status.{StatusData, StatusPage, fetch_status, poll_all, receive_status, status_request}

module _ (h : Host) (Time : Type 0) (t : Messages) (read : h.Json → StatusData h.Number) where
  -- The data of an answer, if it is a successful one.
  abbrev pub good : Reply h.Json → Option (StatusData h.Number)
  good (rejected _) = none
  good (response status (parsed j)) = if is_ok_status status then some (read j) else none
  good (response status (unparsable _)) = none

  abbrev pub newer :
      Option (StatusData h.Number)
      → Time
      → Option (StatusData h.Number × Time)
      → Option (StatusData h.Number × Time)
  newer none now best = best
  newer (some d) now best = some (d, now)

  -- The last successful answer among the polls, with its time, or `best` if all of them fail.
  pub last_good :
      List Time
      → Session h
      → Option (StatusData h.Number × Time)
      → Option (StatusData h.Number × Time)
  last_good [] s best = best
  last_good (now ∷ later) s best =
      let (reply, s') = fetch h status_request s in last_good later s' (newer (good reply) now best)

  -- The page shows these data and their time.
  pub record Shows (best : Option (StatusData h.Number × Time)) (p : StatusPage h.Number Time)
      : Type 0 where
    pub content : p.content ≡ Option.map (λ b. b.0) best
    pub updated : p.last_updated ≡ Option.map (λ b. b.1) best

  receive_status-Shows :
      (r : Reply h.Json) (now : Time) (p : StatusPage h.Number Time)
      (best : Option (StatusData h.Number × Time))
      → Shows best p
      → Shows (newer (good r) now best) (receive_status h Time t read r now p)
  unfolding receive_status
  receive_status-Shows (rejected m) now p best w = record {
    content = w.content;
    updated = w.updated;
  }
  receive_status-Shows (response status (unparsable m)) now p best w = record {
    content = w.content;
    updated = w.updated;
  }
  receive_status-Shows (response status (parsed j)) now p best w =
      elim (Bool-cases (is_ok_status status)) [
        | inl e ↦ rw e (record { content = refl; updated = refl })
        | inr e ↦ rw e (record { content = w.content; updated = w.updated })
      ]

  -- After any polls the page shows the data and the time of the last one that succeeded; failures
  -- change neither.
  pub poll_all-last_good :
      (times : List Time) (p : StatusPage h.Number Time) (s : Session h)
      (best : Option (StatusData h.Number × Time))
      → Shows best p
      → Shows (last_good times s best) (poll_all h Time t read times p s).0
  unfolding poll_all fetch_status last_good
  poll_all-last_good [] p s best w = w
  poll_all-last_good (now ∷ later) p s best w =
      let r = (fetch h status_request s).0 in
      poll_all-last_good later (receive_status h Time t read r now p) (fetch h status_request s).1
        (newer (good r) now best) (receive_status-Shows r now p best w)
