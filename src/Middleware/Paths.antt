-- ===== src/Middleware/Paths.antt =====
-- Which paths reach the backend through web/src/middleware.ts.
use Prim.Native.String.{[] as no_text, ◌∷◌ as char_then}
use uni_llm.Prelude.{
  Bool-cases, List, String, arith, eq_iff, false, if◌then◌else◌, inl, inr, lookup, lookup-put, put,
  refl, some, starts_with, true, ◌<+>◌, ◌===◌, ◌≡◌, ◌⊎◌,
}
use uni_llm.Middleware.{Incoming, backend_path, is_matched, is_proxied, middleware, rewrite}

-- The paths that the backend is ever asked for.
abbrev pub IsBackendPath : String → Type 0
IsBackendPath p =
    (starts_with p "/api/" ≡ true)
    ⊎ ((starts_with p "/v1/" ≡ true) ⊎ ((p ≡ "/status") ⊎ ((p ≡ "/health") ⊎ (p ≡ "/metrics"))))

api-not-backend : (s : String) → starts_with s "/api/" ≡ true → starts_with s "/backend/" ≡ false
api-not-backend no_text h = cc
api-not-backend (char_then c no_text) h = ground arith
api-not-backend (char_then c (char_then d s)) h = ground arith

v1-not-backend : (s : String) → starts_with s "/v1/" ≡ true → starts_with s "/backend/" ≡ false
v1-not-backend no_text h = cc
v1-not-backend (char_then c no_text) h = ground arith
v1-not-backend (char_then c (char_then d s)) h = ground arith

is_proxied-cases :
    (p : String)
    → is_proxied p ≡ true
    → (starts_with p "/api/" ≡ true)
      ⊎ ((starts_with p "/v1/" ≡ true)
          ⊎ ((p ≡ "/backend/status") ⊎ ((p ≡ "/backend/health") ⊎ (p ≡ "/backend/metrics"))))
unfolding is_proxied
is_proxied-cases p h =
    ground
      (arith, eq_iff p "/backend/status", eq_iff p "/backend/health", eq_iff p "/backend/metrics")

-- Every path that is proxied reaches the backend as a path of its API or as one of its three status
-- endpoints; the rest of the backend cannot be reached through `/backend/`.
pub backend_path-IsBackendPath : (p : String) → is_proxied p ≡ true → IsBackendPath (backend_path p)
unfolding backend_path
backend_path-IsBackendPath p h = elim (is_proxied-cases p h) [
  | inl api ↦ rw (api-not-backend p api) (inl api)
  | inr (inl v1) ↦ rw (v1-not-backend p v1) (inr (inl v1))
  | inr (inr (inl e)) ↦ rw e (inr (inr (inl refl)))
  | inr (inr (inr (inl e))) ↦ rw e (inr (inr (inr (inl refl))))
  | inr (inr (inr (inr e))) ↦ rw e (inr (inr (inr (inr refl))))
]

-- No path that the handler would proxy is hidden from it by the matcher of its `config`.
pub is_proxied-is_matched : (p : String) → is_proxied p ≡ true → is_matched p ≡ true
unfolding is_matched
is_proxied-is_matched p h = elim (is_proxied-cases p h) [
  | inl api ↦ ground arith
  | inr (inl v1) ↦ ground arith
  | inr (inr (inl e)) ↦ rw e
  | inr (inr (inr (inl e))) ↦ rw e
  | inr (inr (inr (inr e))) ↦ rw e
]

-- A request that the handler forwards goes to a backend path, resolved with the query of the request;
-- it keeps every header but `host`, which names the backend.
pub middleware_forwards :
    (resolve : String → String → String) (host_of : String → String) (backend : String)
    (r : Incoming) (url : String) (headers : List (String × String))
    → middleware resolve host_of backend r ≡ rewrite url headers
    → IsBackendPath (backend_path r.pathname)
      × (url ≡ resolve (backend_path r.pathname <+> r.search) backend)
      × ((k : String)
          → lookup k headers
            ≡ (if "host" === k then some (host_of backend) else lookup k r.headers))
unfolding middleware
middleware_forwards resolve host_of backend r url headers e =
    elim (Bool-cases (is_proxied r.pathname)) [
      | inl yes_proxied ↦ (
        backend_path-IsBackendPath r.pathname yes_proxied,
        ground arith,
        λ k.
            let same : headers ≡ put "host" (host_of backend) r.headers = ground arith in
            rw same (lookup-put "host" k (host_of backend) r.headers),
      )
      | inr not_proxied ↦ absurd (ground arith)
    ]
