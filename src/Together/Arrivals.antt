-- ===== src/Together/Arrivals.antt =====
-- A page that awaits `Promise.all` of five calls, as `loadData` of web/src/app/dashboard/page.tsx and
-- `loadAll` of web/src/app/admin/page.tsx do. The answers come in any order, and the user goes on typing
-- and clicking between them.
use uni_llm.Prelude.{Bool, List, Option, String, [], false, if◌then◌else◌, none, some, true, ◌∷◌}
use uni_llm.Net.{Browser, Host, Outcome, Reply, Session, err, ok}
use uni_llm.Together.{Five}

pub data Nth : Type 0 where
  one two three four five : Nth

abbrev pub nth : {A : Type 0} → Five A → Nth → A
nth r one = r.first
nth r two = r.second
nth r three = r.third
nth r four = r.fourth
nth r five = r.fifth

pub data Event (Edit : Type 0) : Type 0 where
  arrives : Nth → Event Edit
  edits : Edit → Event Edit

-- The code around the `await`: the handling of an answer, the calls with a `.catch` of their own, what
-- follows the `await`, what the `catch` block does to the page and to the browser, and what the user may
-- change meanwhile.
pub record Awaiting (h : Host) (Page Edit : Type 0) : Type 0 where
  pub handle : Reply h.Json → Session h → Outcome h.Json × Session h
  pub is_caught : Nth → Bool
  pub on_fulfilled : Five (Outcome h.Json) → Page → Page
  pub on_rejected : String → Page → Page
  pub leave : Browser → Browser
  pub edit : Edit → Page → Page

-- `is_over` holds once the promise is fulfilled or rejected.
pub record Pending (h : Host) (Page : Type 0) : Type 0 where
  pub came : Five (Option (Outcome h.Json))
  pub is_over : Bool
  pub page : Page
  pub session : Session h

abbrev pub none_came : {A : Type 0} → Five (Option A)
none_came = record { first = none; second = none; third = none; fourth = none; fifth = none }

abbrev pub fill : {A : Type 0} → Nth → A → Five (Option A) → Five (Option A)
fill one a r = record r { first = some a }
fill two a r = record r { second = some a }
fill three a r = record r { third = some a }
fill four a r = record r { fourth = some a }
fill five a r = record r { fifth = some a }

-- The five results, once none is missing.
unfoldable pub complete : {A : Type 0} → Five (Option A) → Option (Five A)
complete r = elim r.first [
  | none ↦ none
  | some a ↦ elim r.second [
    | none ↦ none
    | some b ↦ elim r.third [
      | none ↦ none
      | some c ↦ elim r.fourth [
        | none ↦ none
        | some d ↦ elim r.fifth [
          | none ↦ none
          | some e ↦ some (record { first = a; second = b; third = c; fourth = d; fifth = e })
        ]
      ]
    ]
  ]
]

module _ {h : Host} {Page Edit : Type 0} (w : Awaiting h Page Edit) where
  -- The message with which a call rejects the promise.
  abbrev pub breaks : Nth → Outcome h.Json → Option String
  breaks i (ok _) = none
  breaks i (err m) = if w.is_caught i then none else some m

  -- One call is settled: the promise is rejected by the first failure that comes, or fulfilled by the
  -- last result.
  unfoldable pub settle : Nth → Outcome h.Json → Pending h Page → Pending h Page
  settle i o g =
      let came = fill i o g.came in
      if g.is_over then record g { came = came } else elim (breaks i o) [
        | some m ↦ record g {
          came = came;
          is_over = true;
          page = w.on_rejected m g.page;
          session = record g.session { browser = w.leave g.session.browser };
        }
        | none ↦ elim (complete came) [
          | none ↦ record g { came = came }
          | some r ↦ record g { came = came; is_over = true; page = w.on_fulfilled r g.page }
        ]
      ]

  unfoldable pub happen : Five (Reply h.Json) → Event Edit → Pending h Page → Pending h Page
  unfolding settle
  happen replies (arrives i) g =
      let (o, s) = w.handle (nth replies i) g.session in settle i o (record g { session = s })
  happen replies (edits e) g = record g { page = w.edit e g.page }

  unfoldable pub happen_all :
      Five (Reply h.Json) → List (Event Edit) → Pending h Page → Pending h Page
  unfolding happen
  happen_all replies [] g = g
  happen_all replies (x ∷ xs) g = happen_all replies xs (happen replies x g)

  -- The page and the session after all that happens.
  unfoldable pub await_all :
      Five (Reply h.Json) → List (Event Edit) → Page → Session h → Page × Session h
  unfolding happen_all
  await_all replies events p s =
      let g =
        happen_all replies events
          (record { came = none_came; is_over = false; page = p; session = s }) in
      (g.page, g.session)
