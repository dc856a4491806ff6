-- ===== src/Admin/Mirror.antt =====
-- The lists on web/src/app/admin/page.tsx and what the server has, whatever the administrator does.
use uni_llm.Api
use uni_llm.AdminApi
use uni_llm.Prelude.{some, List, String, [], ◌∷◌, ◌≡◌}
use uni_llm.Net.{Host, Outcome, Session, err, ok}
use uni_llm.Api.{stored_token}
use uni_llm.AdminApi.{admin_receive}
use uni_llm.Admin.{AdminPage, AdminReaders}
use uni_llm.Admin.Actions.{AdminAction, act}
use uni_llm.Admin.Service.{AdminService, IsWatched}

module _ (h : Host) (read : AdminReaders h) (parse : String → h.Number)
    (service : AdminService h read parse) where
  -- What a call leaves to the handlers: a page that mirrored the server still does after a call that throws,
  -- and one that succeeds has borne the token, which stays.
  record IsAnswered (p : AdminPage h.Number) (r : Outcome h.Json × Session h) : Type 0 where
    if_refused : (m : String) → r.0 ≡ err m → IsWatched h read parse service (p, r.1)
    if_granted : (j : h.Json) → r.0 ≡ ok j → stored_token r.1.browser ≡ some service.token

  unfoldable pub act_all :
      List (AdminAction h.Number) → AdminPage h.Number × Session h → AdminPage h.Number × Session h
  act_all [] q = q
  act_all (a ∷ actions) q = act_all actions (act h read parse a q.0 q.1)
