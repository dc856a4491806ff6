-- ===== src/Middleware.antt =====
-- web/src/middleware.ts: which requests Next.js forwards to the backend, and under which path.
-- `URL` is the web platform's: resolving a path against the backend's address and taking the host of
-- an address are the parameters `resolve` and `host_of`.
pub mod Paths
use uni_llm.Prelude.{
  Bool, List, String, if◌then◌else◌, put, replace_first, starts_with, ◌<+>◌, ◌===◌, ◌||◌,
}

pub record Incoming : Type 0 where
  pub pathname : String
  pub search : String
  pub headers : List (String × String)

-- `NextResponse.next()` and `NextResponse.rewrite(url, { request: { headers } })`
pub data Routed : Type 0 where
  next : Routed
  rewrite : (url : String) (headers : List (String × String)) → Routed

unfoldable pub is_proxied : String → Bool
is_proxied pathname =
    starts_with pathname "/api/"
    || starts_with pathname "/v1/"
    || pathname === "/backend/status"
    || pathname === "/backend/health"
    || pathname === "/backend/metrics"

unfoldable pub backend_path : String → String
backend_path pathname =
    if starts_with pathname "/backend/" then replace_first "/backend" "" pathname else pathname

module _ (resolve : String → String → String) (host_of : String → String)
    (backend_url : String) where
  unfoldable pub middleware : Incoming → Routed
  middleware request =
      if is_proxied request.pathname
      then rewrite (resolve (backend_path request.pathname <+> request.search) backend_url)
          (put "host" (host_of backend_url) request.headers)
      else next

-- `/name/:path*` of the matcher: the path itself, or anything below it.
abbrev pub below : String → String → Bool
below base pathname = pathname === base || starts_with pathname (base <+> "/")

-- `config.matcher`: the paths for which Next.js runs the middleware at all.
unfoldable pub is_matched : String → Bool
is_matched pathname = below "/api" pathname || below "/v1" pathname || below "/backend" pathname
