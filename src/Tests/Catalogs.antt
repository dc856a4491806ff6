-- ===== src/Tests/Catalogs.antt =====
-- The properties of the models page, the calculator and the usage chart, on a small catalog.
use mathlib.Core.List.{Mem, Perm}
use uni_llm.Prelude.{All, List, String, [], arith, false, refl, true, ℕ, ◌↔◌, ◌∷◌}
use uni_llm.Catalog.{ModelInfo}
use uni_llm.Marketplace.{Filters, filtered}
use uni_llm.Marketplace.Filter.{Meets, mem-filtered}
use uni_llm.Calculator.{
  CalculatorPage, Edit, first_calculator, priced, receive_models, sorted_models,
}
use uni_llm.Calculator.Order.{IsAscending, sorted_models_lem}
use uni_llm.Calculator.Selection.{HasSelection, edit_all, loaded-HasSelection}
use uni_llm.UsageChart.{DailyData, cost_bars, request_bars}
use uni_llm.UsageChart.Heights.{FitsFrame, IsCount, charts-FitsFrame}
use uni_llm.Tests.Fixtures.{naturals}
use uni_llm.Net.{ok}

abbrev model_of : String → String → ℕ → ModelInfo ℕ
model_of id vendor price = record {
  id = id;
  vendor = vendor;
  input_price_per_1m = price;
  output_price_per_1m = price;
  max_tokens = 4096;
  supports_stream = true;
  supports_tools = false;
  supports_vision = true;
}

abbrev catalog : List (ModelInfo ℕ)
catalog =
    model_of "gpt-4o" "OpenAI" 5 ∷ model_of "local" "" 1 ∷ model_of "claude" "Anthropic" 3 ∷ []

abbrev lower : String → String
lower s = s

abbrev seeing : Filters
seeing = record { search = "c"; vendor_filter = "Anthropic"; cap_filter = "vision" }

mem-filtered_example : Mem (model_of "claude" "Anthropic" 3) (filtered lower seeing catalog) ↔ (
    Mem (model_of "claude" "Anthropic" 3) catalog
    × Meets lower seeing (model_of "claude" "Anthropic" 3))
mem-filtered_example = mem-filtered lower seeing catalog (model_of "claude" "Anthropic" 3)

abbrev calculation : CalculatorPage naturals
calculation = record {
  models = catalog;
  loading = false;
  selected_model_id = "claude";
  input_tokens = 2_000_000;
  output_tokens = 1_000_000;
  requests_per_day = 100;
}

sorted_models_lem_example :
    IsAscending naturals (sorted_models naturals calculation)
    × Perm (sorted_models naturals calculation) (priced naturals calculation)
unfolding priced
sorted_models_lem_example = sorted_models_lem naturals calculation (tt, (tt, (tt, tt)))

abbrev edits : List (Edit naturals)
edits = Edit.select_model "local" ∷ Edit.input "7" ∷ []

loaded-HasSelection_example :
    HasSelection naturals
      (edit_all naturals edits (receive_models naturals (ok catalog) (first_calculator naturals)))
unfolding receive_models
loaded-HasSelection_example =
    loaded-HasSelection naturals catalog edits (first_calculator naturals) (refl, (tt, tt))

abbrev days : List (DailyData naturals)
days =
    record { date = "2026-01-01"; requests = 4; tokens = 100; cost = 2 }
    ∷ record { date = "2026-01-02"; requests = 8; tokens = 300; cost = 6 }
    ∷ []

is_count : (n : ℕ) → IsCount naturals n
is_count n = record { finite = tt; nonneg = ground arith }

charts-FitsFrame_example :
    All (FitsFrame naturals) (request_bars naturals days)
    × All (FitsFrame naturals) (cost_bars naturals days)
charts-FitsFrame_example =
    charts-FitsFrame naturals days (is_count 4, (is_count 8, tt)) (is_count 2, (is_count 6, tt))
