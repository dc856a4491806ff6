-- ===== src/UsageChart.antt =====
-- web/src/components/UsageChart.tsx: the heights of the bars, in percent.
pub mod Heights
pub mod View
use uni_llm.Prelude.{List, String, [], map, ◌∷◌}
use uni_llm.Double.{Double}

module _ (d : Double) where
  open d use {Number, of_nat, mul, div, max}

  pub record DailyData : Type 0 where
    pub date : String
    pub requests : Number
    pub tokens : Number
    pub cost : Number

  -- `Math.max(...xs, last)`
  unfoldable pub max_of : List Number → Number → Number
  max_of [] last = last
  max_of (x ∷ xs) last = max x (max_of xs last)

  unfoldable pub max_reqs : List DailyData → Number
  max_reqs days = max_of (map (λ x. x.requests) days) (of_nat 1)

  unfoldable pub max_cost : List DailyData → Number
  max_cost days = max_of (map (λ x. x.cost) days) d.thousandth

  -- `Math.max((value / most) * 100, 2)`
  unfoldable pub bar_height : Number → Number → Number
  bar_height most value = max (mul (div value most) (of_nat 100)) (of_nat 2)

  unfoldable pub request_bars : List DailyData → List Number
  request_bars days = map (λ x. bar_height (max_reqs days) x.requests) days

  unfoldable pub cost_bars : List DailyData → List Number
  cost_bars days = map (λ x. bar_height (max_cost days) x.cost) days
