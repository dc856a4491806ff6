-- ===== src/Together.antt =====
-- `Promise.all` over five calls of a client: every request is built from the same browser and sent
-- before the first answer is looked at. The answers are taken in the order of the calls; the first
-- failure among them is the failure of the whole.
pub mod Arrivals
pub mod Marks
pub mod Orders
pub mod Endings
use uni_llm.Net.{Browser, Host, Outcome, Reply, Request, Session, fetch}

pub record Five {ℓ} (A : Type ℓ) : Type ℓ where
  pub first : A
  pub second : A
  pub third : A
  pub fourth : A
  pub fifth : A

module _ (h : Host) where
  unfoldable pub start_five :
      (Browser → Five (Request h.Number)) → Session h → Five (Reply h.Json) × Session h
  start_five requests s =
      let r = requests s.browser in
      let (a, s1) = fetch h r.first s in
      let (b, s2) = fetch h r.second s1 in
      let (c, s3) = fetch h r.third s2 in
      let (d, s4) = fetch h r.fourth s3 in
      let (e, s5) = fetch h r.fifth s4 in
      (record { first = a; second = b; third = c; fourth = d; fifth = e }, s5)

  -- Each answer goes through the client's own handling.
  unfoldable pub settle_five :
      (Reply h.Json → Session h → Outcome h.Json × Session h)
      → Five (Reply h.Json)
      → Session h
      → Five (Outcome h.Json) × Session h
  settle_five handle r s =
      let (a, s1) = handle r.first s in
      let (b, s2) = handle r.second s1 in
      let (c, s3) = handle r.third s2 in
      let (d, s4) = handle r.fourth s3 in
      let (e, s5) = handle r.fifth s4 in
      (record { first = a; second = b; third = c; fourth = d; fifth = e }, s5)
