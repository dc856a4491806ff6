-- ===== src/Markup/Clicks.antt =====
-- What can be pressed on a view, and what it says.
use mathlib.Core.List.{append_assoc}
use uni_llm.Prelude.{
  Bool, List, String, [], ap, false, if◌then◌else◌, is_nil, map, refl, sym, true, ◌&&◌, ◌++◌, ◌===◌,
  ◌||◌, ◌∙◌, ◌∷◌, ◌≡◌,
}
use uni_llm.Markup.{Attr, View, each, element, flag, nothing, on, text, ◌<&>◌}

module _ {E : Type 0} where
  abbrev pub is_disabled : List (Attr E) → Bool
  is_disabled [] = false
  is_disabled (flag name b ∷ given) = (name === "disabled") && b || is_disabled given
  is_disabled (_ ∷ given) = is_disabled given

  -- The events of its `onClick`.
  abbrev pub own_clicks : List (Attr E) → List E
  own_clicks [] = []
  own_clicks (on name e ∷ given) =
      if name === "onClick" then e ∷ own_clicks given else own_clicks given
  own_clicks (_ ∷ given) = own_clicks given

  abbrev pub open_clicks : List (Attr E) → List E
  open_clicks given = if is_disabled given then [] else own_clicks given

  -- What a visitor can click on, from the top to the bottom: the elements with an `onClick` that are not
  -- disabled.
  abbrev pub clicks : View E → List E
  clicks nothing = []
  clicks (text s v) = clicks v
  clicks (element name given inner v) = open_clicks given ++ (clicks inner ++ clicks v)

  -- All texts, from the top to the bottom.
  abbrev pub texts : View E → List String
  texts nothing = []
  texts (text s v) = s ∷ texts v
  texts (element name given inner v) = texts inner ++ texts v

  pub clicks-beside : (v w : View E) → clicks (v <&> w) ≡ clicks v ++ clicks w
  clicks-beside nothing w = refl
  clicks-beside (text s v) w = clicks-beside v w
  clicks-beside (element name given inner v) w = rw (clicks-beside v w) (
      ap (λ l. open_clicks given ++ l) (sym (append_assoc (clicks inner) (clicks v) (clicks w)))
      ∙ sym (append_assoc (open_clicks given) (clicks inner ++ clicks v) (clicks w)))

  pub texts-beside : (v w : View E) → texts (v <&> w) ≡ texts v ++ texts w
  texts-beside nothing w = refl
  texts-beside (text s v) w = ap (λ l. s ∷ l) (texts-beside v w)
  texts-beside (element name given inner v) w =
      rw (texts-beside v w) (sym (append_assoc (texts inner) (texts v) (texts w)))

  -- Rows of which none, or each one, can be clicked.
  pub clicks-each_none :
      {A : Type 0} (xs : List A) (f : A → View E)
      → ((x : A) → clicks (f x) ≡ [])
      → clicks (each xs f) ≡ []
  clicks-each_none [] f h = refl
  clicks-each_none (x ∷ xs) f h =
      clicks-beside (f x) (each xs f) ∙ rw (h x) (clicks-each_none xs f h)

  pub clicks-each_one :
      {A : Type 0} (xs : List A) (f : A → View E) (g : A → E)
      → ((x : A) → clicks (f x) ≡ g x ∷ [])
      → clicks (each xs f) ≡ map g xs
  clicks-each_one [] f g h = refl
  clicks-each_one (x ∷ xs) f g h =
      clicks-beside (f x) (each xs f) ∙ rw (h x) (ap (λ l. g x ∷ l) (clicks-each_one xs f g h))

  -- Neither of two alternatives can be clicked.
  pub clicks-if_none :
      (c : Bool) (v w : View E) → clicks v ≡ [] → clicks w ≡ [] → clicks (if c then v else w) ≡ []
  clicks-if_none true v w h k = h
  clicks-if_none false v w h k = k

  pub clicks-beside_none : (v w : View E) → clicks v ≡ [] → clicks w ≡ [] → clicks (v <&> w) ≡ []
  clicks-beside_none v w h k = clicks-beside v w ∙ rw (h, k) refl

  pub clicks-beside_left :
      (v w : View E) (l : List E) → clicks v ≡ [] → clicks w ≡ l → clicks (v <&> w) ≡ l
  clicks-beside_left v w l h k = clicks-beside v w ∙ rw (h, k) refl

  -- A notice in place of an empty list.
  pub clicks-if_nil :
      {A : Type 0} (xs : List A) (f : A → E) (v w : View E)
      → clicks v ≡ []
      → clicks w ≡ map f xs
      → clicks (if is_nil xs then v else w) ≡ map f xs
  clicks-if_nil [] f v w h k = h
  clicks-if_nil (x ∷ xs) f v w h k = k

  -- The texts that stand in elements of the name `name`, from the top to the bottom.
  abbrev pub texts_in : String → View E → List String
  texts_in name nothing = []
  texts_in name (text s v) = texts_in name v
  texts_in name (element other given inner v) =
      (if other === name then texts inner else texts_in name inner) ++ texts_in name v

  pub texts_in-beside :
      (name : String) (v w : View E) → texts_in name (v <&> w) ≡ texts_in name v ++ texts_in name w
  texts_in-beside name nothing w = refl
  texts_in-beside name (text s v) w = texts_in-beside name v w
  texts_in-beside name (element other given inner v) w = rw (texts_in-beside name v w) (
      sym (
        append_assoc (if other === name then texts inner else texts_in name inner) (texts_in name v)
          (texts_in name w)))

  -- Rows with one such text each.
  pub texts_in-each_one :
      {A : Type 0} (name : String) (xs : List A) (f : A → View E) (g : A → String)
      → ((x : A) → texts_in name (f x) ≡ g x ∷ [])
      → texts_in name (each xs f) ≡ map g xs
  texts_in-each_one name [] f g h = refl
  texts_in-each_one name (x ∷ xs) f g h =
      texts_in-beside name (f x) (each xs f)
      ∙ rw (h x) (ap (λ l. g x ∷ l) (texts_in-each_one name xs f g h))

  pub texts_in-each_none :
      {A : Type 0} (name : String) (xs : List A) (f : A → View E)
      → ((x : A) → texts_in name (f x) ≡ [])
      → texts_in name (each xs f) ≡ []
  texts_in-each_none name [] f h = refl
  texts_in-each_none name (x ∷ xs) f h =
      texts_in-beside name (f x) (each xs f) ∙ rw (h x) (texts_in-each_none name xs f h)

  pub texts_in-if_nil :
      {A : Type 0} (name : String) (xs : List A) (f : A → String) (v w : View E)
      → texts_in name v ≡ []
      → texts_in name w ≡ map f xs
      → texts_in name (if is_nil xs then v else w) ≡ map f xs
  texts_in-if_nil name [] f v w h k = h
  texts_in-if_nil name (x ∷ xs) f v w h k = k

  -- A notice in place of what is still loading.
  pub clicks-if_else :
      (c : Bool) (v w : View E) (l : List E)
      → clicks v ≡ []
      → clicks w ≡ l
      → clicks (if c then v else w) ≡ (if c then [] else l)
  clicks-if_else true v w l h k = h
  clicks-if_else false v w l h k = k

  pub texts_in-if_else :
      (name : String) (c : Bool) (v w : View E) (l : List String)
      → texts_in name v ≡ []
      → texts_in name w ≡ l
      → texts_in name (if c then v else w) ≡ (if c then [] else l)
  texts_in-if_else name true v w l h k = h
  texts_in-if_else name false v w l h k = k

  pub texts_in-beside_none :
      (name : String) (v w : View E)
      → texts_in name v ≡ []
      → texts_in name w ≡ []
      → texts_in name (v <&> w) ≡ []
  texts_in-beside_none name v w h k = texts_in-beside name v w ∙ rw (h, k) refl

  pub texts_in-if_none :
      (name : String) (c : Bool) (v w : View E)
      → texts_in name v ≡ []
      → texts_in name w ≡ []
      → texts_in name (if c then v else w) ≡ []
  texts_in-if_none name true v w h k = h
  texts_in-if_none name false v w h k = k
