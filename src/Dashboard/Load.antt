-- ===== src/Dashboard/Load.antt =====
-- `loadData` of web/src/app/dashboard/page.tsx.
use mathlib.Core.List.{append_assoc}
use uni_llm.Prelude.{String, [], arith, inl, inr, or_else, refl, some, ◌++◌, ◌∷◌, ◌≡◌, ◌⊎◌}
use uni_llm.Net.{Host, Outcome, Reply, Session, err, fetch, ok, push_route, rejected, response}
use uni_llm.I18n.Shape.{Messages}
use uni_llm.Together.{Five, settle_five, start_five}
use uni_llm.Api.{api_base, no_options, receive, request_of}
use uni_llm.Dashboard.{DashboardPage, Readers, apply_data, data_requests, load_data}

-- The results of the five calls, and the session once all of them are settled.
abbrev pub settled : (h : Host) → Session h → Five (Outcome h.Json) × Session h
settled h s =
    let (replies, s5) = start_five h data_requests s in settle_five h (receive h) replies s5

module _ (h : Host) (read : Readers h) (t : Messages) where
  -- What `apply_data` may do: show all that was loaded, or go to the login page.
  pub data Loaded (r : Five (Outcome h.Json)) (p : DashboardPage h.Number) (s : Session h)
      (q : DashboardPage h.Number × Session h) : Type 0 where
    shows :
        (a b c : h.Json)
        → r.first ≡ ok a
        → r.second ≡ ok b
        → r.third ≡ ok c
        → q.0.summary ≡ some (read.summary a)
        → q.0.models ≡ or_else (read.models b) []
        → q.0.keys ≡ or_else (read.keys c) []
        → q.1 ≡ s
        → Loaded r p s q
    leaves :
        (m : String)
        → ((r.first ≡ err m) ⊎ ((r.second ≡ err m) ⊎ (r.third ≡ err m)))
        → q.0 ≡ p
        → q.1 ≡ record s { browser = push_route "/login" s.browser }
        → Loaded r p s q

  apply_data-Loaded :
      (x y z : Outcome h.Json) (r : Five (Outcome h.Json)) (p : DashboardPage h.Number)
      (s : Session h)
      → r.first ≡ x
      → r.second ≡ y
      → r.third ≡ z
      → Loaded r p s (apply_data h read t r p s)
  unfolding apply_data
  apply_data-Loaded (err m) y z r p s e f g = leaves m (inl e) (ground arith) (ground arith)
  apply_data-Loaded (ok a) (err m) z r p s e f g =
      leaves m (inr (inl f)) (ground arith) (ground arith)
  apply_data-Loaded (ok a) (ok b) (err m) r p s e f g =
      leaves m (inr (inr g)) (ground arith) (ground arith)
  apply_data-Loaded (ok a) (ok b) (ok c) r p s e f g =
      shows a b c e f g (ground arith) (ground arith) (ground arith) (ground arith)

  pub load_data-Loaded :
      (p : DashboardPage h.Number) (s : Session h)
      → Loaded (settled h s).0 p (settled h s).1 (load_data h read t p s)
  unfolding load_data
  load_data-Loaded p s = apply_data-Loaded _ _ _ (settled h s).0 p (settled h s).1 refl refl refl

  sent-receive : (r : Reply h.Json) (s : Session h) → (receive h r s).1.sent ≡ s.sent
  unfolding receive
  sent-receive (rejected m) s = refl
  sent-receive (response status x) s = ground arith

  sent-apply_data :
      (r : Five (Outcome h.Json)) (p : DashboardPage h.Number) (s : Session h)
      → (apply_data h read t r p s).1.sent ≡ s.sent
  unfolding apply_data
  sent-apply_data r p s = ground arith

  sent-settle_five :
      (r : Five (Reply h.Json)) (s : Session h) → (settle_five h (receive h) r s).1.sent ≡ s.sent
  unfolding settle_five
  sent-settle_five r s = simp sent-receive

  -- Loading the dashboard sends five requests, all built from the browser as it is at the start: an
  -- expired token that the first answer removes still goes with the other four.
  pub sent-load_data :
      (p : DashboardPage h.Number) (s : Session h)
      → (load_data h read t p s).1.sent
        ≡ s.sent
          ++ request_of api_base "/usage/summary" no_options s.browser
            ∷ request_of api_base "/usage/by-model" no_options s.browser
            ∷ request_of api_base "/keys" no_options s.browser
            ∷ request_of api_base "/usage/daily" no_options s.browser
            ∷ request_of api_base "/usage/recent" no_options s.browser
            ∷ []
  unfolding load_data start_five fetch
  sent-load_data p s = simp (sent-apply_data, sent-settle_five, append_assoc)
