-- ===== src/Marketplace/Filter.antt =====
-- The filters of web/src/app/models/page.tsx against a description of what each of them asks for.
use mathlib.Core.List.{Mem}
use uni_llm.Prelude.{
  List, String, arith, eq_iff, includes, is_empty_iff, mem-keep, true, ◌↔◌, ◌≡◌, ◌⊎◌,
}
use uni_llm.Catalog.{ModelInfo, get_vendor}
use uni_llm.Marketplace.{Filters, filtered, shown}

-- What a filter setting asks of a model, one condition for each control of the page.
pub record Meets {Number : Type 0} (to_lower : String → String) (f : Filters) (m : ModelInfo Number)
    : Type 0 where
  pub searched : (f.search ≡ "") ⊎ (includes (to_lower m.id) (to_lower f.search) ≡ true)
  pub of_vendor : (f.vendor_filter ≡ "all") ⊎ (get_vendor m ≡ f.vendor_filter)
  pub sees : f.cap_filter ≡ "vision" → m.supports_vision ≡ true
  pub calls : f.cap_filter ≡ "tools" → m.supports_tools ≡ true
  pub streams : f.cap_filter ≡ "stream" → m.supports_stream ≡ true

module _ {Number : Type 0} (to_lower : String → String) (f : Filters) (m : ModelInfo Number) where
  shown-Meets : shown to_lower f m ≡ true → Meets to_lower f m
  unfolding shown
  shown-Meets h = record {
    searched = ground (
      arith,
      is_empty_iff f.search,
      eq_iff f.vendor_filter "all",
      eq_iff (get_vendor m) f.vendor_filter,
      eq_iff f.cap_filter "vision",
      eq_iff f.cap_filter "tools",
      eq_iff f.cap_filter "stream",
    );
    of_vendor = ground (
      arith,
      is_empty_iff f.search,
      eq_iff f.vendor_filter "all",
      eq_iff (get_vendor m) f.vendor_filter,
      eq_iff f.cap_filter "vision",
      eq_iff f.cap_filter "tools",
      eq_iff f.cap_filter "stream",
    );
    sees = λ e. ground (
      arith,
      is_empty_iff f.search,
      eq_iff f.vendor_filter "all",
      eq_iff (get_vendor m) f.vendor_filter,
      eq_iff f.cap_filter "vision",
      eq_iff f.cap_filter "tools",
      eq_iff f.cap_filter "stream",
    );
    calls = λ e. ground (
      arith,
      is_empty_iff f.search,
      eq_iff f.vendor_filter "all",
      eq_iff (get_vendor m) f.vendor_filter,
      eq_iff f.cap_filter "vision",
      eq_iff f.cap_filter "tools",
      eq_iff f.cap_filter "stream",
    );
    streams = λ e. ground (
      arith,
      is_empty_iff f.search,
      eq_iff f.vendor_filter "all",
      eq_iff (get_vendor m) f.vendor_filter,
      eq_iff f.cap_filter "vision",
      eq_iff f.cap_filter "tools",
      eq_iff f.cap_filter "stream",
    );
  }

  Meets-shown : Meets to_lower f m → shown to_lower f m ≡ true
  unfolding shown
  Meets-shown h = ground (
    arith,
    is_empty_iff f.search,
    eq_iff f.vendor_filter "all",
    eq_iff (get_vendor m) f.vendor_filter,
    eq_iff f.cap_filter "vision",
    eq_iff f.cap_filter "tools",
    eq_iff f.cap_filter "stream",
  )

-- The page shows a model exactly when the catalog has it and it meets every filter that is set.
pub mem-filtered :
    {Number : Type 0} (to_lower : String → String) (f : Filters) (models : List (ModelInfo Number))
    (m : ModelInfo Number)
    → Mem m (filtered to_lower f models) ↔ (Mem m models × Meets to_lower f m)
unfolding filtered
mem-filtered to_lower f models m =
    let (to, from) = mem-keep (shown to_lower f) m models in
    (
      λ i. ((to i).0, shown-Meets to_lower f m (to i).1),
      λ c. from (c.0, Meets-shown to_lower f m c.1),
    )
