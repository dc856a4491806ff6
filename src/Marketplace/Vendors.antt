-- ===== src/Marketplace/Vendors.antt =====
-- The vendor menu of web/src/app/models/page.tsx.
use text.Mathlib.TextPositions.{eq_refl}
use uni_llm.Prelude.{
  Bool-cases, List, String, [], ap, arith, eq_iff, false, inl, inr, map, refl, sym, true, ◌===◌,
  ◌||◌, ◌∙◌, ◌∷◌, ◌≡◌, ◌≢◌,
}
use uni_llm.Catalog.{ModelInfo, get_vendor}
use uni_llm.Marketplace.{
  contains, distinct_after, filtered, insert_text, shown, sort_texts, text_lt, vendors,
}

contains-insert_text :
    (v x : String) (ys : List String) → contains v (insert_text x ys) ≡ ((x === v) || contains v ys)
unfolding insert_text
contains-insert_text v x [] = refl
contains-insert_text v x (y ∷ ys) = ground (arith, contains-insert_text v x ys)

contains-sort_texts : (v : String) (xs : List String) → contains v (sort_texts xs) ≡ contains v xs
unfolding sort_texts
contains-sort_texts v [] = refl
contains-sort_texts v (x ∷ xs) =
    contains-insert_text v x (sort_texts xs) ∙ ap (λ b. (x === v) || b) (contains-sort_texts v xs)

contains-distinct_after :
    (v : String) (seen xs : List String)
    → contains v seen ≡ false
    → contains v (distinct_after seen xs) ≡ contains v xs
unfolding distinct_after
contains-distinct_after v seen [] h = refl
contains-distinct_after v seen (x ∷ xs) h =
    grind (
      arith,
      contains-distinct_after v seen xs,
      contains-distinct_after v (x ∷ seen) xs,
      eq_iff x v,
    )

abbrev pub IsDistinct : List String → Type 0
IsDistinct [] = Unit
IsDistinct (x ∷ xs) = (contains x xs ≡ false) × IsDistinct xs

distinct_after-avoids :
    (v : String) (seen xs : List String)
    → contains v seen ≡ true
    → contains v (distinct_after seen xs) ≡ false
unfolding distinct_after
distinct_after-avoids v seen [] h = refl
distinct_after-avoids v seen (x ∷ xs) h =
    ground
      (arith, distinct_after-avoids v seen xs, distinct_after-avoids v (x ∷ seen) xs, eq_iff x v)

distinct_after-IsDistinct : (seen xs : List String) → IsDistinct (distinct_after seen xs)
unfolding distinct_after
distinct_after-IsDistinct seen [] = tt
distinct_after-IsDistinct seen (x ∷ xs) = elim (Bool-cases (contains x seen)) [
  | inl old ↦ rw old (distinct_after-IsDistinct seen xs)
  | inr new ↦
      rw new (
        distinct_after-avoids x (x ∷ seen) xs (rw eq_refl),
        distinct_after-IsDistinct (x ∷ seen) xs,
      )
]

insert_text-IsDistinct :
    (x : String) (ys : List String)
    → contains x ys ≡ false
    → IsDistinct ys
    → IsDistinct (insert_text x ys)
unfolding insert_text
insert_text-IsDistinct x [] h d = (refl, tt)
insert_text-IsDistinct x (y ∷ ys) h d = elim (Bool-cases (text_lt y x)) [
  | inl before ↦ rw before (
    contains-insert_text y x ys ∙ ground (arith, eq_iff x y, eq_iff y x),
    insert_text-IsDistinct x ys (ground arith) d.1,
  )
  | inr behind ↦ rw behind (h, d)
]

sort_texts-IsDistinct : (xs : List String) → IsDistinct xs → IsDistinct (sort_texts xs)
unfolding sort_texts
sort_texts-IsDistinct [] d = tt
sort_texts-IsDistinct (x ∷ xs) d =
    insert_text-IsDistinct x (sort_texts xs) (contains-sort_texts x xs ∙ d.0)
      (sort_texts-IsDistinct xs d.1)

-- The vendor menu lists the vendor of each model, no vendor twice, and nothing else.
pub vendors_lem :
    {Number : Type 0} (models : List (ModelInfo Number))
    → IsDistinct (vendors models)
      × ((v : String) → contains v (vendors models) ≡ contains v (map get_vendor models))
unfolding vendors
vendors_lem models = (
  sort_texts-IsDistinct _ (distinct_after-IsDistinct [] (map get_vendor models)),
  λ v.
      contains-sort_texts v (distinct_after [] (map get_vendor models))
      ∙ contains-distinct_after v [] (map get_vendor models) refl,
)

keep_vendor :
    {Number : Type 0} (to_lower : String → String) (v : String) (models : List (ModelInfo Number))
    → v ≢ "all"
    → contains v (map get_vendor models) ≡ true
    → filtered to_lower (record { search = ""; vendor_filter = v; cap_filter = "all" }) models ≢ []
unfolding filtered shown
keep_vendor to_lower v [] ne h = cc
keep_vendor to_lower v (m ∷ ms) ne h =
    ground (arith, keep_vendor to_lower v ms ne, eq_iff v "all", eq_iff (get_vendor m) v)

-- Choosing a vendor of the menu, with the other filters off, always shows some model. A vendor that is
-- itself called "all" is left out: the page takes that name for no filter.
pub vendor_option_shows :
    {Number : Type 0} (to_lower : String → String) (v : String) (models : List (ModelInfo Number))
    → v ≢ "all"
    → contains v (vendors models) ≡ true
    → filtered to_lower (record { search = ""; vendor_filter = v; cap_filter = "all" }) models ≢ []
vendor_option_shows to_lower v models ne h =
    keep_vendor to_lower v models ne (sym ((vendors_lem models).1 v) ∙ h)
