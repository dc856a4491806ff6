-- ===== src/Calculator.antt =====
-- web/src/app/calculator/page.tsx: costs by model, over the numbers of `Double`.
-- `Array.prototype.sort` is stable, so for a consistent comparator its result is that of the insertion
-- sort below.
pub mod Order
pub mod Selection
pub mod View
pub mod Controls
use uni_llm.Api
use uni_llm.Prelude.{
  Bool, List, Option, String, [], false, find_first, if◌then◌else◌, map, none, some, true, ◌<+>◌,
  ◌===◌, ◌∷◌,
}
use uni_llm.Net.{Outcome, err, ok}
use uni_llm.Double.{Double}
use uni_llm.Catalog.{ModelInfo}

module _ (d : Double) where
  open d use {Number, of_nat, add, sub, mul, div, lt, to_fixed, to_exponential}

  unfoldable pub calc_cost_per_request : ModelInfo Number → Number → Number → Number
  calc_cost_per_request m input_tokens output_tokens =
      add (mul (div input_tokens (of_nat 1_000_000)) m.input_price_per_1m)
        (mul (div output_tokens (of_nat 1_000_000)) m.output_price_per_1m)

  unfoldable pub format_cost : Number → String
  format_cost cost =
      if lt cost d.ten_thousandth
      then "$" <+> to_exponential 2 cost
      else if lt cost d.hundredth
      then "$" <+> to_fixed 6 cost
      else if lt cost (of_nat 1)
      then "$" <+> to_fixed 4 cost
      else "$" <+> to_fixed 2 cost

  pub record CalculatorPage : Type 0 where
    pub models : List (ModelInfo Number)
    pub loading : Bool
    pub selected_model_id : String
    pub input_tokens : Number
    pub output_tokens : Number
    pub requests_per_day : Number

  unfoldable pub first_calculator : CalculatorPage
  first_calculator = record {
    models = [];
    loading = true;
    selected_model_id = "";
    input_tokens = of_nat 500;
    output_tokens = of_nat 200;
    requests_per_day = of_nat 100;
  }

  abbrev pub first_id : String → List (ModelInfo Number) → String
  first_id kept [] = kept
  first_id kept (m ∷ ms) = m.id

  -- `loadModels` after the catalog has come or failed; the argument is `data.models || []`.
  unfoldable pub receive_models :
      Outcome (List (ModelInfo Number)) → CalculatorPage → CalculatorPage
  receive_models (ok models) p = record p {
    models = models;
    selected_model_id = first_id p.selected_model_id models;
    loading = false;
  }
  receive_models (err _) p = record p { loading = false }

  -- The controls: the menu and the rows, and the three number fields.
  pub data Edit : Type 0 where
    select_model input output requests : String → Edit

  unfoldable pub edit : Edit → CalculatorPage → CalculatorPage
  edit (select_model id) p = record p { selected_model_id = id }
  edit (input v) p = record p { input_tokens = d.max (of_nat 0) (d.parse v) }
  edit (output v) p = record p { output_tokens = d.max (of_nat 0) (d.parse v) }
  edit (requests v) p = record p { requests_per_day = d.max (of_nat 0) (d.parse v) }

  unfoldable pub selected_model : CalculatorPage → Option (ModelInfo Number)
  selected_model p = find_first (λ m. m.id === p.selected_model_id) p.models

  unfoldable pub cost_per_request : CalculatorPage → Number
  cost_per_request p = elim (selected_model p) [
    | none ↦ of_nat 0
    | some m ↦ calc_cost_per_request m p.input_tokens p.output_tokens
  ]

  unfoldable pub daily_cost : CalculatorPage → Number
  daily_cost p = mul (cost_per_request p) p.requests_per_day

  unfoldable pub monthly_cost : CalculatorPage → Number
  monthly_cost p = mul (daily_cost p) (of_nat 30)

  unfoldable pub yearly_cost : CalculatorPage → Number
  yearly_cost p = mul (daily_cost p) (of_nat 365)

  -- A model with `costPerReq`.
  pub record Priced : Type 0 where
    pub info : ModelInfo Number
    pub cost_per_req : Number

  unfoldable pub priced : CalculatorPage → List Priced
  priced p =
      map
        (λ m. record {
          info = m;
          cost_per_req = calc_cost_per_request m p.input_tokens p.output_tokens;
        })
        p.models

  -- The comparator `a.costPerReq - b.costPerReq` is positive.
  abbrev pub costs_more : Priced → Priced → Bool
  costs_more x y = lt (of_nat 0) (sub x.cost_per_req y.cost_per_req)

  unfoldable pub insert_priced : Priced → List Priced → List Priced
  insert_priced x [] = x ∷ []
  insert_priced x (y ∷ ys) = if costs_more x y then y ∷ insert_priced x ys else x ∷ y ∷ ys

  unfoldable pub sort_priced : List Priced → List Priced
  sort_priced [] = []
  sort_priced (x ∷ xs) = insert_priced x (sort_priced xs)

  unfoldable pub sorted_models : CalculatorPage → List Priced
  sorted_models p = sort_priced (priced p)
