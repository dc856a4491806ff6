-- ===== src/UsageChart/Heights.antt =====
-- The bars of web/src/components/UsageChart.tsx fit their frame.
use uni_llm.Prelude.{All, All-imp, List, [], arith, map, true, ◌∷◌, ◌≡◌}
use uni_llm.Double.{Double}
use uni_llm.UsageChart.{DailyData, bar_height, cost_bars, max_cost, max_of, max_reqs, request_bars}

module _ (d : Double) where
  open d use {Number, IsFinite, le, lt, of_nat}

  -- What the server counts is finite and not negative.
  pub record IsCount (x : Number) : Type 0 where
    pub finite : IsFinite x
    pub nonneg : le (of_nat 0) x ≡ true

  pub record FitsFrame (height : Number) : Type 0 where
    pub visible : le (of_nat 2) height ≡ true
    pub inside : le height (of_nat 100) ≡ true

  max_of-IsFinite :
      (xs : List Number) (last : Number)
      → All IsCount xs
      → IsFinite last
      → IsFinite (max_of d xs last)
  unfolding max_of
  max_of-IsFinite [] last h f = f
  max_of-IsFinite (x ∷ xs) last h f = d.max-IsFinite x _ h.0.finite (max_of-IsFinite xs last h.1 f)

  le-max_of_last :
      (xs : List Number) (last : Number)
      → All IsCount xs
      → IsFinite last
      → le last last ≡ true
      → le last (max_of d xs last) ≡ true
  unfolding max_of
  le-max_of_last [] last h f r = r
  le-max_of_last (x ∷ xs) last h f r =
      d.le_trans last (max_of d xs last) _ (le-max_of_last xs last h.1 f r)
        (d.le-max_right x (max_of d xs last) h.0.finite (max_of-IsFinite xs last h.1 f))

  le-max_of :
      (xs : List Number) (last : Number)
      → All IsCount xs
      → IsFinite last
      → All (λ x. le x (max_of d xs last) ≡ true) xs
  unfolding max_of
  le-max_of [] last h f = tt
  le-max_of (x ∷ xs) last h f =
      let rest = max_of d xs last in
      let rest_finite = max_of-IsFinite xs last h.1 f in
      (
        d.le-max_left x rest h.0.finite rest_finite,
        All-imp
            (λ y below.
              d.le_trans y rest (d.max x rest) below (d.le-max_right x rest h.0.finite rest_finite))
            xs (le-max_of xs last h.1 f),
      )

  bar_height-FitsFrame :
      (most value : Number)
      → IsFinite most
      → lt (of_nat 0) most ≡ true
      → IsCount value
      → le value most ≡ true
      → FitsFrame (bar_height d most value)
  unfolding bar_height
  bar_height-FitsFrame most value fm pm c l =
      let share = d.percent-IsFinite value most c.finite fm pm l c.nonneg in
      let two = d.of_nat-IsFinite 2 (omega arith) in
      record {
        visible = d.le-max_right _ (of_nat 2) share two;
        inside =
            d.max-le _ (of_nat 2) (of_nat 100) share two
              (d.percent_bound value most c.finite fm pm l) (d.le-of_nat 2 100 (omega arith));
      }

  bars-FitsFrame :
      {A : Type 0} (value : A → Number) (xs : List A) (most : Number)
      → IsFinite most
      → lt (of_nat 0) most ≡ true
      → All IsCount (map value xs)
      → All (λ x. le x most ≡ true) (map value xs)
      → All FitsFrame (map (λ x. bar_height d most (value x)) xs)
  bars-FitsFrame value [] most fm pm h b = tt
  bars-FitsFrame value (x ∷ xs) most fm pm h b = (
    bar_height-FitsFrame most (value x) fm pm h.0 b.0,
    bars-FitsFrame value xs most fm pm h.1 b.1,
  )

  scaled-FitsFrame :
      {A : Type 0} (value : A → Number) (xs : List A) (last : Number)
      → IsFinite last
      → lt (of_nat 0) last ≡ true
      → All IsCount (map value xs)
      → All FitsFrame (map (λ x. bar_height d (max_of d (map value xs) last) (value x)) xs)
  scaled-FitsFrame value xs last fl pl h =
      let most = max_of d (map value xs) last in
      bars-FitsFrame value xs most (max_of-IsFinite (map value xs) last h fl)
        (d.lt-le_trans (of_nat 0) last most pl
          (le-max_of_last (map value xs) last h fl (d.le_refl last fl)))
        h (le-max_of (map value xs) last h fl)

  -- If the server's counts are finite and not negative, every bar of both charts is at least 2 and at
  -- most 100 percent high.
  pub charts-FitsFrame :
      (days : List (DailyData d))
      → All IsCount (map (λ x. x.requests) days)
      → All IsCount (map (λ x. x.cost) days)
      → All FitsFrame (request_bars d days) × All FitsFrame (cost_bars d days)
  unfolding request_bars cost_bars max_reqs max_cost
  charts-FitsFrame days hr hc = (
    scaled-FitsFrame (λ (x : DailyData d). x.requests) days (of_nat 1)
        (d.of_nat-IsFinite 1 (omega arith)) (d.lt-of_nat 0 1 (omega arith) (omega arith)) hr,
    scaled-FitsFrame (λ (x : DailyData d). x.cost) days d.thousandth d.thousandth-IsFinite
        d.thousandth-pos hc,
  )
