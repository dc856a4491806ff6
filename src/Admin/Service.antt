-- ===== src/Admin/Service.antt =====
-- A server that honours a token, for web/src/app/admin/page.tsx, and what a load of the page shows of it.
use uni_llm.Prelude.{
  inl, some, starts_with, true, none, List, String, [], ap, or_else, refl, sym, ◌∙◌, ◌≡◌,
}
use uni_llm.Net.{Browser, Parsed, Host, Reply, Request, Session, err, fetch, ok, parsed, response}
use uni_llm.Api.{stored_token, body_of, no_options, request_of}
use uni_llm.Api.Keeping.{Bears, IsBare, Keeps, off_five, off_five-Keeps}
use uni_llm.Api.Token.{request_of-authorized}
use uni_llm.AdminApi.{admin_base, admin_receive}
use uni_llm.Together.{Five, settle_five, start_five}
use uni_llm.Admin.{
  AdminPage, AdminReaders, ProviderInfo, AdminModel, ProviderKeyInfo, User, admin_requests,
  apply_all, first_error, load_all,
}
use uni_llm.Admin.Arrivals.{admin_outcome, admin_receive_lem}

-- What the administration page lists.
pub record Lists (Number : Type 0) : Type 0 where
  pub users : List (User Number)
  pub providers : List (ProviderInfo Number)
  pub models : List (AdminModel Number)
  pub provider_keys : List (ProviderKeyInfo Number)

abbrev pub lists_of : {Number : Type 0} → AdminPage Number → Lists Number
lists_of p = record {
  users = p.users;
  providers = p.providers;
  models = p.models;
  provider_keys = p.provider_keys;
}

same_lists :
    {Number : Type 0} {us : List (User Number)} {ps : List (ProviderInfo Number)}
    {ms : List (AdminModel Number)} {ks : List (ProviderKeyInfo Number)} {l : Lists Number}
    → us ≡ l.users
    → ps ≡ l.providers
    → ms ≡ l.models
    → ks ≡ l.provider_keys
    → record { users = us; providers = ps; models = ms; provider_keys = ks } ≡ l
same_lists e f g k = rw (e, f, g, k) refl

same_five :
    {A : Type 0} {a b c d e a' b' c' d' e' : A}
    → a ≡ a'
    → b ≡ b'
    → c ≡ c'
    → d ≡ d'
    → e ≡ e'
    → ◌≡◌ {A = Five A}
        (record { first = a; second = b; third = c; fourth = d; fifth = e })
        (record { first = a'; second = b'; third = c'; fourth = d'; fifth = e' })
same_five i j k l m = rw (i, j, k, l, m) refl

module _ (h : Host) (read : AdminReaders h) (parse : String → h.Number) where
  -- A granted answer to a request to read, with each list as it is asked for.
  pub record IsRead (has : Lists h.Number) (url : String) (reply : Reply h.Json) : Type 0 where
    pub value : h.Json
    pub answered : reply ≡ response 200 (parsed value)
    pub users : url ≡ "/api/admin/users" → or_else (read.users value) [] ≡ has.users
    pub providers : url ≡ "/api/admin/providers" → or_else (read.providers value) [] ≡ has.providers
    pub models : url ≡ "/api/admin/models" → or_else (read.models value) [] ≡ has.models
    pub keys : url ≡ "/api/admin/provider-keys" → or_else (read.keys value) [] ≡ has.provider_keys

  -- A server with `JWTAuth` of api/middleware/auth.go: it grants the requests to read that bear the
  -- administrator's token, answers 401 to a request of the administration that bears none, each list is what
  -- it has, and only a request whose granting answer arrives changes what it has.
  pub record AdminService : Type 0 where
    pub token : String
    pub has : h.Server → Lists h.Number
    pub reads :
        (x : h.Server) (r : Request h.Number)
        → r.method ≡ none
        → Bears token r
        → IsRead (has x) r.url (h.respond x r).1
    pub guarded :
        (x : h.Server) (r : Request h.Number)
        → starts_with r.url "/api/admin/" ≡ true
        → IsBare r
        → (body : Parsed h.Json) × ((h.respond x r).1 ≡ response 401 body)
    pub unchanged :
        (x : h.Server) (r : Request h.Number) → r.method ≡ none → has (h.respond x r).0 ≡ has x
    pub refused :
        (x : h.Server) (r : Request h.Number) (m : String)
        → admin_outcome h read parse (h.respond x r).1 ≡ err m
        → has (h.respond x r).0 ≡ has x

  module _ (service : AdminService) where
    -- The page lists what the server has.
    abbrev pub Mirrors : AdminPage h.Number × Session h → Type 0
    Mirrors q = lists_of q.0 ≡ service.has q.1.server

    -- Besides, the browser keeps the token that the server honours, or none.
    abbrev pub IsWatched : AdminPage h.Number × Session h → Type 0
    IsWatched q = Mirrors q × Keeps service.token q.1.browser

    browser-settle_five :
        (r : Five (Reply h.Json)) (s : Session h)
        → (settle_five h (admin_receive h) r s).1.browser ≡ off_five r s.browser
    unfolding settle_five
    browser-settle_five r s = simp (admin_receive_lem h read parse)

    bears :
        (path : String) (b : Browser)
        → stored_token b ≡ some service.token
        → Bears service.token (request_of {Number = h.Number} admin_base path no_options b)
    bears path b e = request_of-authorized admin_base path no_options b service.token e

    server-settle_five :
        (r : Five (Reply h.Json)) (s : Session h)
        → (settle_five h (admin_receive h) r s).1.server ≡ s.server
    unfolding settle_five
    server-settle_five r s = simp (admin_receive_lem h read parse)

    granted :
        (r : Reply h.Json) (j : h.Json)
        → r ≡ response 200 (parsed j)
        → admin_outcome h read parse r ≡ ok j
    unfolding body_of
    granted r j e = rw e refl

    settle_five-outcomes :
        (r : Five (Reply h.Json)) (s : Session h)
        → (settle_five h (admin_receive h) r s).0 ≡ record {
          first = admin_outcome h read parse r.first;
          second = admin_outcome h read parse r.second;
          third = admin_outcome h read parse r.third;
          fourth = admin_outcome h read parse r.fourth;
          fifth = admin_outcome h read parse r.fifth;
        }
    unfolding settle_five
    settle_five-outcomes r s = simp (admin_receive_lem h read parse)

    apply_all-lists :
        (p : AdminPage h.Number) (a b c d e : h.Json)
        → lists_of (
            apply_all h read parse
              (record { first = ok a; second = ok b; third = ok c; fourth = ok d; fifth = ok e })
              p)
          ≡ record {
            users = or_else (read.users b) [];
            providers = or_else (read.providers c) [];
            models = or_else (read.models d) [];
            provider_keys = or_else (read.keys e) [];
          }
    unfolding apply_all first_error
    apply_all-lists p a b c d e = refl

    load_all-Mirrors :
        (p : AdminPage h.Number) (s : Session h)
        → stored_token s.browser ≡ some service.token
        → Mirrors (load_all h read parse p s)
    unfolding load_all start_five fetch request_of
    load_all-Mirrors p s held =
        let asks : String → Request h.Number =
          λ path. request_of admin_base path no_options s.browser in
        let x1 = (h.respond s.server (asks "/stats")).0 in
        let x2 = (h.respond x1 (asks "/users")).0 in
        let x3 = (h.respond x2 (asks "/providers")).0 in
        let x4 = (h.respond x3 (asks "/models")).0 in
        let x5 = (h.respond x4 (asks "/provider-keys")).0 in
        let u1 : service.has x1 ≡ service.has s.server = service.unchanged _ _ refl in
        let u2 : service.has x2 ≡ service.has s.server = service.unchanged _ _ refl ∙ u1 in
        let u3 : service.has x3 ≡ service.has s.server = service.unchanged _ _ refl ∙ u2 in
        let u4 : service.has x4 ≡ service.has s.server = service.unchanged _ _ refl ∙ u3 in
        let u5 : service.has x5 ≡ service.has s.server = service.unchanged _ _ refl ∙ u4 in
        let a = service.reads s.server (asks "/stats") refl (bears "/stats" s.browser held) in
        let b = service.reads x1 (asks "/users") refl (bears "/users" s.browser held) in
        let c = service.reads x2 (asks "/providers") refl (bears "/providers" s.browser held) in
        let d = service.reads x3 (asks "/models") refl (bears "/models" s.browser held) in
        let e =
          service.reads x4 (asks "/provider-keys") refl (bears "/provider-keys" s.browser held) in
        let (replies, s5) = start_five h admin_requests s in
        ap (λ r. lists_of (apply_all h read parse r p))
          (settle_five-outcomes replies s5
            ∙ same_five (granted _ _ a.answered) (granted _ _ b.answered) (granted _ _ c.answered)
                (granted _ _ d.answered) (granted _ _ e.answered))
        ∙ apply_all-lists p a.value b.value c.value d.value e.value
        ∙ same_lists (b.users refl ∙ ap (λ l. l.users) u1)
            (c.providers refl ∙ ap (λ l. l.providers) u2) (d.models refl ∙ ap (λ l. l.models) u3)
            (e.keys refl ∙ ap (λ l. l.provider_keys) u4)
        ∙ sym (ap service.has (server-settle_five replies s5) ∙ u5)

    pub load_all-IsWatched :
        (p : AdminPage h.Number) (s : Session h)
        → stored_token s.browser ≡ some service.token
        → IsWatched (load_all h read parse p s)
    load_all-IsWatched p s held = (
      load_all-Mirrors p s held,
      unfold load_all start_five fetch in
          rw
            (browser-settle_five (start_five h admin_requests s).0
              (start_five h admin_requests s).1)
            (off_five-Keeps service.token (start_five h admin_requests s).0 s.browser (inl held)),
    )
