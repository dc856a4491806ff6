-- ===== src/Tests/Fixtures.antt =====
-- A scripted server, browsers, and numbers for the examples.
use Prim.Native.Nat.{max}
use uni_llm.Prelude.{
  List, String, none, [], arith, leb, ltb, refl, show_nat, true, ℕ, ◌*◌, ◌+◌, ◌-◌, ◌/◌, ◌<◌, ◌∷◌,
  ◌≤◌,
}
use uni_llm.Net.{Browser, Host, Reply, Request, Session, parsed, rejected, response}
use uni_llm.Double.{Double}
use uni_llm.Status.{StatusData}
use uni_llm.Dashboard.{Readers}
use uni_llm.Admin.{AdminReaders}

-- The server answers with the replies of its script, one after the other.
abbrev answer_next : List (Reply String) → Request ℕ → List (Reply String) × Reply String
answer_next [] r = ([], rejected "offline")
answer_next (x ∷ xs) r = (xs, x)

-- A body is its text: it is an error message and a token alike.
abbrev pub scripted : Host
scripted = record {
  Json = String;
  Number = ℕ;
  Server = List (Reply String);
  respond = answer_next;
  error_of = λ j. j;
  token_of = λ j. j;
}

abbrev pub visitor : Browser
visitor = record { has_window = true; storage = []; href = "/"; pushed = [] }

abbrev pub member : Browser
member = record { has_window = true; storage = ("token", "t1") ∷ []; href = "/"; pushed = [] }

abbrev pub session_of : Browser → List (Reply String) → Session scripted
session_of b script = record { browser = b; server = script; sent = [] }

abbrev pub fine : String → Reply String
fine j = response 200 (parsed j)

abbrev pub expired : Reply String
expired = response 401 (parsed "token expired")

pub share_le_one : (a b : ℕ) → 0 < b → a ≤ b → a / b * 100 ≤ 100
share_le_one a b h k = grind arith

abbrev pub naturals : Double
naturals = record {
  Number = ℕ;
  of_nat = λ n. n;
  ten_thousandth = 0;
  hundredth = 0;
  thousandth = 1;
  add = λ a b. a + b;
  sub = λ a b. a - b;
  mul = λ a b. a * b;
  div = λ a b. a / b;
  max = λ a b. max a b;
  lt = ltb;
  le = leb;
  parse = λ s. 7;
  to_fixed = λ n x. show_nat x;
  to_exponential = λ n x. show_nat x;
  IsFinite = λ n. Unit;
  of_nat-IsFinite = λ n h. tt;
  thousandth-IsFinite = tt;
  thousandth-pos = refl;
  lt-of_nat = λ m n h k. ground arith;
  le-of_nat = λ m n h. ground arith;
  le_refl = λ a h. ground arith;
  le_trans = λ a b c h k. ground arith;
  lt-le_trans = λ a b c h k. ground arith;
  sub_pos = λ a b f g h. ground arith;
  sub_not_pos = λ a b f g h. ground arith;
  max-IsFinite = λ a b f g. tt;
  le-max_left = λ a b f g. ground arith;
  le-max_right = λ a b f g. ground arith;
  max-le = λ a b c f g h k. ground arith;
  percent_bound = λ a b f g h k. ground (arith, share_le_one a b);
  percent-IsFinite = λ a b f g h k l. tt;
}

abbrev pub read_status : String → StatusData ℕ
read_status j = record { status = j; providers = [] }

abbrev pub readers : Readers scripted
readers = record {
  summary = λ j. record {
    total_requests = 1;
    total_tokens = 2;
    total_cost = 3;
    avg_latency = 4;
    success_rate = 100;
    today_cost = 0;
    balance = 10;
  };
  models = λ j. none;
  keys = λ j. none;
  days = λ j. none;
  logs = λ j. none;
  key = λ j. j;
}

abbrev pub admin_readers : AdminReaders scripted
admin_readers = record {
  role = λ j. j;
  stats = λ j. record {
    total_users = 1;
    total_requests = 2;
    total_cost = 3;
    total_tokens = 4;
    active_keys = 5;
  };
  users = λ j. none;
  providers = λ j. none;
  models = λ j. none;
  keys = λ j. none;
}

abbrev pub parse_number : String → ℕ
parse_number s = 5
