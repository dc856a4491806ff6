-- ===== src/Status.antt =====
-- web/src/app/status/page.tsx: the public status page, polled every 30 seconds.
pub mod Polls
pub mod Overlaps
pub mod View
use uni_llm.Prelude.{Bool, List, Option, String, [], if◌then◌else◌, none, some, ◌===◌, ◌||◌, ◌∷◌}
use uni_llm.Net.{
  Host, Reply, Request, Session, fetch, is_ok_status, parsed, rejected, response, unparsable,
}
use uni_llm.I18n.Shape.{Messages}

pub record ProviderHealth (Number : Type 0) : Type 0 where
  pub name : String
  pub status : String
  pub latency_ms : Number
  pub circuit : String
  pub checked_at : String

pub record StatusData (Number : Type 0) : Type 0 where
  pub status : String
  pub providers : List (ProviderHealth Number)

unfoldable pub status_color : String → String
status_color status =
    if status === "up" || status === "operational"
    then "var(--success)"
    else if status === "degraded"
    then "#eab308"
    else if status === "down"
    then "var(--danger)"
    else "var(--muted)"

unfoldable pub status_bg : String → String
status_bg status =
    if status === "up" || status === "operational"
    then "rgba(34, 197, 94, 0.12)"
    else if status === "degraded"
    then "rgba(234, 179, 8, 0.12)"
    else if status === "down"
    then "rgba(239, 68, 68, 0.12)"
    else "var(--card)"

pub record Badge : Type 0 where
  pub bg : String
  pub color : String

unfoldable pub circuit_badge : String → Badge
circuit_badge circuit =
    if circuit === "closed"
    then record { bg = "rgba(34, 197, 94, 0.15)"; color = "var(--success)" }
    else if circuit === "half-open"
    then record { bg = "rgba(234, 179, 8, 0.15)"; color = "#eab308" }
    else if circuit === "open"
    then record { bg = "rgba(239, 68, 68, 0.15)"; color = "var(--danger)" }
    else record { bg = "var(--card)"; color = "var(--muted)" }

pub record StatusPage (Number Time : Type 0) : Type 0 where
  pub content : Option (StatusData Number)
  pub error : String
  pub last_updated : Option Time

abbrev pub first_status : {Number Time : Type 0} → StatusPage Number Time
first_status = record { content = none; error = ""; last_updated = none }

-- The headline of the page.
unfoldable pub headline : {Number : Type 0} → Messages → StatusData Number → String
headline t d = if d.status === "operational" then t.status.operational else t.status.degraded

abbrev pub status_request : {Number : Type 0} → Request Number
status_request = record { url = "/backend/status"; method = none; headers = []; body = none }

-- `read` takes the body as the page's `StatusData`; `Time` is `Date`.
module _ (h : Host) (Time : Type 0) (t : Messages) (read : h.Json → StatusData h.Number) where
  -- `fetchStatus` once the answer is there, at the time `now`.
  unfoldable pub receive_status :
      Reply h.Json → Time → StatusPage h.Number Time → StatusPage h.Number Time
  receive_status (rejected m) now p = record p { error = m }
  receive_status (response status (parsed j)) now p =
      if is_ok_status status
      then record { content = some (read j); error = ""; last_updated = some now }
      else record p { error = t.status.fetch_error }
  receive_status (response status (unparsable m)) now p = record p {
    error = if is_ok_status status then m else t.status.fetch_error;
  }

  unfoldable pub fetch_status :
      Time → StatusPage h.Number Time → Session h → StatusPage h.Number Time × Session h
  fetch_status now p s =
      let (reply, s') = fetch h status_request s in (receive_status reply now p, s')

  -- The polls of the page, at the given times.
  unfoldable pub poll_all :
      List Time → StatusPage h.Number Time → Session h → StatusPage h.Number Time × Session h
  poll_all [] p s = (p, s)
  poll_all (now ∷ later) p s = let (p', s') = fetch_status now p s in poll_all later p' s'

-- `data.providers.sort(…)`, which is stable; `comes_after a b` is `a.localeCompare(b) > 0`.
module _ {Number : Type 0} (comes_after : String → String → Bool) where
  unfoldable pub insert_provider :
      ProviderHealth Number → List (ProviderHealth Number) → List (ProviderHealth Number)
  insert_provider x [] = x ∷ []
  insert_provider x (y ∷ ys) =
      let rest = insert_provider x ys in if comes_after x.name y.name then y ∷ rest else x ∷ y ∷ ys

  unfoldable pub sort_providers : List (ProviderHealth Number) → List (ProviderHealth Number)
  unfolding insert_provider
  sort_providers [] = []
  sort_providers (x ∷ xs) = insert_provider x (sort_providers xs)
