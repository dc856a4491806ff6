-- ===== src/Together/Marks.antt =====
-- Which of five calls have been answered, as marks on them.
use mathlib.Core.List.{Perm}
use uni_llm.Prelude.{
  Bool, List, Option, Perm-some_of, [], ap, arith, false, if◌then◌else◌, none, refl, some, some_of,
  true, ◌&&◌, ◌||◌, ◌∙◌, ◌∷◌, ◌≡◌,
}
use uni_llm.Together.{Five}
use uni_llm.Together.Arrivals.{Nth, complete, fill, five, four, nth, one, three, two}

abbrev pub same_nth : Nth → Nth → Bool
same_nth one one = true
same_nth two two = true
same_nth three three = true
same_nth four four = true
same_nth five five = true
same_nth _ _ = false

abbrev pub all_five : (Nth → Bool) → Bool
all_five f = f one && (f two && (f three && (f four && f five)))

abbrev pub mark : Nth → (Nth → Bool) → Nth → Bool
mark i f j = same_nth i j || f j

abbrev pub marks : List Nth → (Nth → Bool) → Nth → Bool
marks [] f = f
marks (i ∷ is) f = marks is (mark i f)

pub same_nth-eq : (i j : Nth) → same_nth i j ≡ true → i ≡ j
same_nth-eq i j e = ground arith

pub all_five-each : (f : Nth → Bool) → all_five f ≡ true → (j : Nth) → f j ≡ true
all_five-each f e one = ground arith
all_five-each f e two = ground arith
all_five-each f e three = ground arith
all_five-each f e four = ground arith
all_five-each f e five = ground arith

pub each-all_five : (f : Nth → Bool) → ((j : Nth) → f j ≡ true) → all_five f ≡ true
each-all_five f e = rw (e one, e two, e three, e four, e five) refl

pub marks-kept : (is : List Nth) (f : Nth → Bool) (j : Nth) → f j ≡ true → marks is f j ≡ true
marks-kept [] f j e = e
marks-kept (i ∷ is) f j e = marks-kept is (mark i f) j (ground arith)

marks-some_of :
    (is : List Nth) (f : Nth → Bool) (j : Nth)
    → marks is f j ≡ (some_of (λ i. same_nth i j) is || f j)
marks-some_of [] f j = refl
marks-some_of (i ∷ is) f j = rw (marks-some_of is (mark i f) j) (ground arith)

abbrev pub every : List Nth
every = one ∷ two ∷ three ∷ four ∷ five ∷ []

pub some_of-every : (j : Nth) → some_of (λ i. same_nth i j) every ≡ true
some_of-every one = refl
some_of-every two = refl
some_of-every three = refl
some_of-every four = refl
some_of-every five = refl

abbrev pub no_mark : Nth → Bool
no_mark i = false

pub all_five-marks : (is : List Nth) → Perm is every → all_five (marks is no_mark) ≡ true
all_five-marks is d = each-all_five (marks is no_mark) (λ j.
    marks-some_of is no_mark j ∙ rw (Perm-some_of (λ i. same_nth i j) d, some_of-every j) refl)

module _ {A : Type 0} (r : Five A) where
  abbrev slot : (Nth → Bool) → Nth → Option A
  slot f i = if f i then some (nth r i) else none

  -- The results of the calls marked by `f`.
  abbrev pub slots : (Nth → Bool) → Five (Option A)
  slots f = record {
    first = slot f one;
    second = slot f two;
    third = slot f three;
    fourth = slot f four;
    fifth = slot f five;
  }

  pub fill-slots : (i : Nth) (f : Nth → Bool) → fill i (nth r i) (slots f) ≡ slots (mark i f)
  fill-slots one f = refl
  fill-slots two f = refl
  fill-slots three f = refl
  fill-slots four f = refl
  fill-slots five f = refl

  complete-slots : (f : Nth → Bool) → complete (slots f) ≡ (if all_five f then some r else none)
  unfolding complete
  complete-slots f = ground arith

  pub complete-fill :
      (i : Nth) (f : Nth → Bool)
      → complete (fill i (nth r i) (slots f)) ≡ (if all_five (mark i f) then some r else none)
  complete-fill i f = ap complete (fill-slots i f) ∙ complete-slots (mark i f)
