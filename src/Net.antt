-- ===== src/Net.antt =====
-- What the pages run in: the browser's `window`, `localStorage` and address, and `fetch`.
-- None of it is code of the repository. The server is the parameter `Host`: any state, any answer
-- to each request; `fetch` sends one request, records it in `sent` and returns the answer.
use uni_llm.Prelude.{Bool, List, Option, String, [], leb, lookup, put, remove, ℕ, ◌&&◌, ◌++◌, ◌∷◌}

-- A member of a request body, before `JSON.stringify`; `Number` is the type of IEEE doubles.
pub data Value (Number : Type 0) : Type 0 where
  str : String → Value Number
  number : Number → Value Number
  flag : Bool → Value Number

abbrev pub Body : Type 0 → Type 0
Body Number = List (String × Value Number)

-- `RequestInit`, as far as the sources fill it.
pub record Options (Number : Type 0) : Type 0 where
  pub method : Option String
  pub headers : List (String × String)
  pub body : Option (Body Number)

pub record Request (Number : Type 0) : Type 0 where
  pub url : String
  pub method : Option String
  pub headers : List (String × String)
  pub body : Option (Body Number)

-- `await res.json()`: a value, or the message of the exception.
pub data Parsed (Json : Type 0) : Type 0 where
  parsed : Json → Parsed Json
  unparsable : String → Parsed Json

-- The promise of `fetch` is rejected, or gives a response.
pub data Reply (Json : Type 0) : Type 0 where
  rejected : String → Reply Json
  response : (status : ℕ) → Parsed Json → Reply Json

-- The other side of the network, and the members that the client reads of any response, which are
-- JSON objects, as all that the backend sends:
-- `data.error` ("" when there is none) and `String(data.token)`.
pub record Host : Type 1 where
  pub Json : Type 0
  pub Number : Type 0
  pub Server : Type 0
  pub respond : Server → Request Number → Server × Reply Json
  pub error_of : Json → String
  pub token_of : Json → String

pub record Browser : Type 0 where
  pub has_window : Bool
  pub storage : List (String × String)
  pub href : String
  pub pushed : List String

-- An awaited call returns a value or throws an `Error` with a message.
pub data Outcome {ℓ} (A : Type ℓ) : Type ℓ where
  ok : A → Outcome A
  err : String → Outcome A

-- `res.ok`
abbrev pub is_ok_status : ℕ → Bool
is_ok_status status = leb 200 status && leb status 299

abbrev pub get_item : String → Browser → Option String
get_item k b = lookup k b.storage

abbrev pub set_item : String → String → Browser → Browser
set_item k v b = record b { storage = put k v b.storage }

abbrev pub remove_item : String → Browser → Browser
remove_item k b = record b { storage = remove k b.storage }

-- `window.location.href = url`
abbrev pub go_to : String → Browser → Browser
go_to url b = record b { href = url }

-- `router.push(path)`
abbrev pub push_route : String → Browser → Browser
push_route path b = record b { pushed = b.pushed ++ path ∷ [] }

module _ (h : Host) where
  open h use {Json, Number, Server, respond}

  pub record Session : Type 0 where
    pub browser : Browser
    pub server : Server
    pub sent : List (Request Number)

  -- `fetch(url, init)`
  unfoldable pub fetch : Request Number → Session → Reply Json × Session
  fetch r s =
      let (server', reply) = respond s.server r in
      (reply, record s { server = server'; sent = s.sent ++ r ∷ [] })
