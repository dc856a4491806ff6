-- ===== src/Markup.antt =====
-- The elements that the pages of the console return, as far as JSX has them. The attributes `key` and
-- `ref`, which are React's own, are left out. `onEnter` is an `onKeyDown` that acts on the Enter key
-- alone. A number in an attribute is given by its text.
pub mod Clicks
use uni_llm.Prelude.{Bool, List, String, [], if◌then◌else◌, ◌∷◌}

-- An attribute with a text, a style, a flag such as `disabled`, and what a handler does: the event that
-- it is on this page, or the event for the value that was typed or chosen.
pub data Attr (E : Type 0) : Type 0 where
  attr : (name value : String) → Attr E
  style : List (String × String) → Attr E
  flag : (name : String) → Bool → Attr E
  on : (name : String) → E → Attr E
  on_value : (name : String) → (String → E) → Attr E

-- A row of nodes: a text or an element with its children, and the nodes beside it.
pub data View (E : Type 0) : Type 0 where
  nothing : View E
  text : String → View E → View E
  element : (tag : String) → List (Attr E) → (children next : View E) → View E

module _ {E : Type 0} where
  abbrev pub say : String → View E
  say s = text s nothing

  abbrev pub tag : String → List (Attr E) → View E → View E
  tag name attributes children = element name attributes children nothing

  infixr 20 ◌<&>◌
  abbrev pub ◌<&>◌ : View E → View E → View E
  nothing <&> w = w
  (text s v) <&> w = text s (v <&> w)
  (element name attributes children v) <&> w = element name attributes children (v <&> w)

  -- `c && …`
  abbrev pub when : Bool → View E → View E
  when c v = if c then v else nothing

  -- `xs.map(…)`
  abbrev pub each : {A : Type 0} → List A → (A → View E) → View E
  each [] f = nothing
  each (x ∷ xs) f = f x <&> each xs f
