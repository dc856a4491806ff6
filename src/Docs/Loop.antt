-- ===== src/Docs/Loop.antt =====
-- The loop of `MarkdownContent` in web/src/app/docs/page.tsx ends, with every line looked at.
use uni_llm.Prelude.{
  Bool-cases, List, Option-cases, String, [], ap, arith, includes, inl, inr, length, refl,
  strip_prefix, suc, zero, ℕ, ◌&&◌, ◌++◌, ◌<◌, ◌∷◌, ◌≡◌, ◌≤◌,
}
use uni_llm.Docs.Markdown.{
  blocks_loop, blocks_of, fence_of, is_rule_next, next_block, table_of, tail, take_code, take_rows,
}

take_code-le : (ls : List String) → length (take_code ls).1 ≤ length ls
unfolding take_code
take_code-le [] = omega arith
take_code-le (l ∷ ls) = ground (arith, take_code-le ls)

take_rows-le : (ls : List String) → length (take_rows ls).1 ≤ length ls
unfolding take_rows
take_rows-le [] = omega arith
take_rows-le (l ∷ ls) = ground (arith, take_rows-le ls)

tail-le : (ls : List String) → length (tail ls) ≤ length ls
tail-le [] = omega arith
tail-le (l ∷ ls) = omega arith

fence_of-le : (lang : String) (ls : List String) → length (fence_of lang ls).1 ≤ length ls
unfolding fence_of
fence_of-le lang ls = take_code-le ls

table_of-le : (line : String) (ls : List String) → length (table_of line ls).1 ≤ length ls
unfolding table_of
table_of-le line ls = omega (arith, take_rows-le (tail ls), tail-le ls)

next_block-le : (line : String) (ls : List String) → length (next_block line ls).1 ≤ length ls
unfolding next_block
next_block-le line ls = elim (Option-cases (strip_prefix "```" line)) [
  | inr (lang, e) ↦ rw (e, next_block) (fence_of-le lang ls)
  | inl no_fence ↦ elim (Option-cases (strip_prefix "## " line)) [
    | inr (title, e) ↦ rw (no_fence, e, next_block) (omega arith)
    | inl no_heading ↦ elim (Option-cases (strip_prefix "### " line)) [
      | inr (title, e) ↦ rw (no_fence, no_heading, e, next_block) (omega arith)
      | inl no_subheading ↦ elim (Bool-cases (includes line "|" && is_rule_next ls)) [
        | inl e ↦ rw (no_fence, no_heading, no_subheading, e, next_block) (table_of-le line ls)
        | inr e ↦ rw (no_fence, no_heading, no_subheading, e, next_block) (omega arith)
      ]
    ]
  ]
]

blocks_loop-enough :
    (f g : ℕ) (ls : List String)
    → length ls ≤ f
    → length ls ≤ g
    → blocks_loop f ls ≡ blocks_loop g ls
unfolding blocks_loop
blocks_loop-enough zero zero ls h k = refl
blocks_loop-enough zero (suc g) [] h k = refl
blocks_loop-enough zero (suc g) (l ∷ ls) h k = absurd (omega arith)
blocks_loop-enough (suc f) zero [] h k = refl
blocks_loop-enough (suc f) zero (l ∷ ls) h k = absurd (omega arith)
blocks_loop-enough (suc f) (suc g) [] h k = refl
blocks_loop-enough (suc f) (suc g) (l ∷ ls) h k =
    let shorter = next_block-le l ls in
    ap (λ bs. (next_block l ls).0 ++ bs)
      (blocks_loop-enough f g (next_block l ls).1 (omega arith) (omega arith))

-- One round, and then the rest: `next_block` says what the loop pushes and where it goes on, and it
-- goes on below the line that it has looked at. So the loop ends, and the bound on its rounds is never met.
pub blocks_of-next :
    (line : String) (ls : List String)
    → (blocks_of (line ∷ ls) ≡ (next_block line ls).0 ++ blocks_of (next_block line ls).1)
      × (length (next_block line ls).1 < length (line ∷ ls))
unfolding blocks_of blocks_loop
blocks_of-next line ls = (
  ap (λ bs. (next_block line ls).0 ++ bs)
      (blocks_loop-enough (length ls) (length (next_block line ls).1) (next_block line ls).1
        (next_block-le line ls) (omega arith)),
  omega (arith, next_block-le line ls),
)
