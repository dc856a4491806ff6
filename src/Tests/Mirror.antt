-- ===== src/Tests/Mirror.antt =====
-- A server that keeps the user's keys, and the dashboard that shows them.
use uni_llm.Api
use uni_llm.Prelude.{
  ap, arith, Bool-cases, lookup, Bool, List, Option, Option-cases, String, [], false, inl, inr,
  keep, none, not, refl, some, true, ◌==◌, ◌===◌, ◌∷◌, ◌≡◌, ℕ, length, if◌then◌else◌,
}
use uni_llm.Net.{
  unparsable, Body, Host, Reply, Request, Session, Value, number, parsed, response, str,
}
use uni_llm.I18n.Catalogs.{en}
use uni_llm.Api.{body_of}
use uni_llm.Api.Keeping.{Bears, IsBare}
use uni_llm.Api.Token.{outcome_of}
use uni_llm.Dashboard.{ApiKey, Readers}
use uni_llm.Dashboard.Actions.{Action, create_key, delete_key, type_key_name}
use uni_llm.Dashboard.Mirror.{KeyService}
use uni_llm.Admin.{AdminReaders}
use uni_llm.Admin.Actions.{AdminAction}
use uni_llm.Admin.Arrivals.{admin_outcome}
use uni_llm.Admin.Mirror
use uni_llm.Admin.Service
use uni_llm.Admin.Service.{AdminService, Lists}
use uni_llm.Tests.Fixtures.{member}

abbrev Keys : Type 0
Keys = List (ApiKey ℕ)

abbrev with_key : String → Keys → Keys
with_key name x =
    record {
      id = length x;
      name = name;
      key_prefix = "sk-";
      scope = "full";
      is_active = true;
      last_used = "";
      created_at = "";
    }
    ∷ x

abbrev changed : Body ℕ → Keys → Keys
changed ((_, str n) ∷ _) x = with_key n x
changed ((_, number i) ∷ _) x = keep (λ (k : ApiKey ℕ). not (k.id == i)) x
changed _ x = x

abbrev next_keys : Request ℕ → Keys → Keys
next_keys r x = elim r.method [
  | none ↦ x
  | some _ ↦ if r.url === "/api/keys" then elim r.body [ none ↦ x | some b ↦ changed b x ] else x
]

-- `JWTAuth`: whether a request bears the token of the fixtures.
abbrev opens : Option String → Bool
opens none = false
opens (some v) = v === "Bearer t1"

abbrev is_authorized : Request ℕ → Bool
is_authorized r = opens (lookup "Authorization" r.headers)

abbrev answer_if : {Json : Type 0} → Bool → Json → Reply Json
answer_if true j = response 200 (parsed j)
answer_if false j = response 401 (unparsable "no token")

abbrev answer_to : {Json : Type 0} → Request ℕ → Json → Reply Json
answer_to r j = answer_if (is_authorized r) j

abbrev key_store : Host
key_store = record {
  Json = Keys;
  Number = ℕ;
  Server = Keys;
  respond = λ x r. (if is_authorized r then next_keys r x else x, answer_to r x);
  error_of = λ j. "";
  token_of = λ j. "";
}

abbrev key_readers : Readers key_store
key_readers = record {
  summary = λ j. record {
    total_requests = 0;
    total_tokens = 0;
    total_cost = 0;
    avg_latency = 0;
    success_rate = 0;
    today_cost = 0;
    balance = 0;
  };
  models = λ j. none;
  keys = λ j. some j;
  days = λ j. none;
  logs = λ j. none;
  key = λ j. "sk-1";
}

either_way : {A : Type 0} (b : Bool) (next now : A) → next ≡ now → (if b then next else now) ≡ now
either_way true next now e = e
either_way false next now e = refl

unchanged :
    (x : Keys) (r : Request ℕ)
    → r.method ≡ none
    → (if is_authorized r then next_keys r x else x) ≡ x
unchanged x r e = either_way (is_authorized r) (next_keys r x) x (rw e refl)

elsewhere :
    (x : Keys) (r : Request ℕ)
    → r.url ≡ "/api/password"
    → (if is_authorized r then next_keys r x else x) ≡ x
elsewhere x r u =
    either_way (is_authorized r) (next_keys r x) x
      (elim (Option-cases r.method) [ inl e ↦ rw e refl | inr (m, e) ↦ rw (e, u) refl ])

never_refused :
    (x : Keys) (r : Request ℕ) (m : String)
    → outcome_of key_store (answer_to r x) ≡ uni_llm.Net.err m
    → (if is_authorized r then next_keys r x else x) ≡ x
unfolding body_of
never_refused x r m e = elim (Bool-cases (is_authorized r)) [
  | inl y ↦ absurd (ground arith)
  | inr n ↦ rw n refl
]

read_by :
    {Json : Type 0} (x : Json) (r : Request ℕ)
    → Bears "t1" r
    → answer_to r x ≡ response 200 (parsed x)
read_by x r e = ap (λ o. answer_if (opens o) x) e

denied_to :
    {Json : Type 0} (x : Json) (r : Request ℕ)
    → IsBare r
    → answer_to r x ≡ response 401 (unparsable "no token")
denied_to x r e = ap (λ o. answer_if (opens o) x) e

abbrev service : KeyService key_store key_readers en
service = record {
  token = "t1";
  listed = λ x. x;
  reads = λ x r e b. (x, read_by x r b, λ u. refl);
  guarded = λ x r u b. (unparsable "no token", denied_to x r b);
  unchanged = unchanged;
  elsewhere = elsewhere;
  refused = never_refused;
}

abbrev user_session : Session key_store
user_session = record { browser = member; server = []; sent = [] }

abbrev deeds : List (Bool × Action ℕ)
deeds =
    (false, type_key_name "laptop")
    ∷ (false, create_key)
    ∷ (false, delete_key 0)
    ∷ (true, delete_key 0)
    ∷ []

abbrev number_of : String → ℕ
number_of s = 5

-- A server that grants new provider keys.
abbrev next_lists : Request ℕ → Lists ℕ → Lists ℕ
next_lists r x = elim r.method [
  | none ↦ x
  | some _ ↦
      if r.url === "/api/admin/provider-keys"
      then record x {
        provider_keys =
            record {
              id = length x.provider_keys;
              provider_id = 5;
              key_prefix = "sk-";
              rpm = 60;
              is_active = true;
            }
            ∷ x.provider_keys;
      }
      else x
]

abbrev admin_store : Host
admin_store = record {
  Json = Lists ℕ;
  Number = ℕ;
  Server = Lists ℕ;
  respond = λ x r. (if is_authorized r then next_lists r x else x, answer_to r x);
  error_of = λ j. "";
  token_of = λ j. "";
}

abbrev store_readers : AdminReaders admin_store
store_readers = record {
  role = λ j. "admin";
  stats = λ j. record {
    total_users = 0;
    total_requests = 0;
    total_cost = 0;
    total_tokens = 0;
    active_keys = 0;
  };
  users = λ j. some j.users;
  providers = λ j. some j.providers;
  models = λ j. some j.models;
  keys = λ j. some j.provider_keys;
}

lists_unchanged :
    (x : Lists ℕ) (r : Request ℕ)
    → r.method ≡ none
    → (if is_authorized r then next_lists r x else x) ≡ x
lists_unchanged x r e = either_way (is_authorized r) (next_lists r x) x (rw e refl)

lists_granted :
    (x : Lists ℕ) (r : Request ℕ) (m : String)
    → admin_outcome admin_store store_readers number_of (answer_to r x) ≡ uni_llm.Net.err m
    → (if is_authorized r then next_lists r x else x) ≡ x
unfolding body_of
lists_granted x r m e = elim (Bool-cases (is_authorized r)) [
  | inl y ↦ absurd (ground arith)
  | inr n ↦ rw n refl
]

abbrev admin_service : AdminService admin_store store_readers number_of
admin_service = record {
  token = "t1";
  has = λ x. x;
  reads = λ x r e b. record {
    value = x;
    answered = read_by x r b;
    users = λ u. refl;
    providers = λ u. refl;
    models = λ u. refl;
    keys = λ u. refl;
  };
  guarded = λ x r u b. (unparsable "no token", denied_to x r b);
  unchanged = lists_unchanged;
  refused = lists_granted;
}

abbrev no_lists : Lists ℕ
no_lists = record { users = []; providers = []; models = []; provider_keys = [] }

abbrev admin_session : Session admin_store
admin_session = record { browser = member; server = no_lists; sent = [] }

abbrev tasks : List (AdminAction ℕ)
tasks =
    AdminAction.type_key_provider "5"
    ∷ AdminAction.type_key_value "sk-9"
    ∷ AdminAction.submit_key
    ∷ AdminAction.switch_provider 5 true
    ∷ []
