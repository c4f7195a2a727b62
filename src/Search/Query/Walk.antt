-- ===== src/Search/Query/Walk.antt =====
-- src/db_sqlite.c, db_search_files: its walk over parent pointers against a traversal by recursion.
use ed2kd.Base.{ℕ, zero, suc, ◌+◌, ◌≡◌, refl, List, [], ◌∷◌, Option, none, some, arith, ap, ◌∙◌}
use ed2kd.Search.{Node, leaf, branch}
use ed2kd.Search.Query.{
  Params, open_term, oper_term, close_term, leaf_term, Visit, left_visited, right_visited, at, back,
  after, walk, passes, no_params,
}

infixl 5 ◌>>=◌
abbrev ◌>>=◌ : Option Params → (Params → Option Params) → Option Params
none >>= f = none
some c >>= f = f c

-- The traversal by recursion: the left child between the opening and the operator, the right one
-- between the operator and the closing.
pub collect : Node → Params → Option Params
unfolding open_term oper_term close_term leaf_term
collect (leaf t) c = leaf_term t c
collect (branch op flag l r) c = open_term flag c >>= (λ c₁.
    collect l c₁ >>= λ c₂. oper_term op flag c₂ >>= λ c₃. collect r c₃ >>= λ c₄. close_term flag c₄)

after_bind :
    (o : Option Params) (g : Params → Option Params) (k f : Params → Option (Option Params))
    → ((c : Params) → f c ≡ after (g c) k)
    → after o f ≡ after (o >>= g) k
after_bind none g k f h = refl
after_bind (some c) g k f h = h c

finish : (o : Option Params) → after o (λ c. walk 1 back [] c) ≡ some o
unfolding walk
finish none = refl
finish (some c) = refl

walk-collect :
    (n : Node) (total fuel : ℕ) (up : List Visit) (c : Params)
    → total ≡ passes n + fuel
    → walk total (at n) up c ≡ after (collect n c) (λ c'. walk fuel back up c')
unfolding walk passes collect
walk-collect (leaf t) zero fuel up c h = absurd (omega arith)
walk-collect (leaf t) (suc total) fuel up c h =
    let same : total ≡ fuel = omega arith in
    ap (λ n. after (leaf_term t c) (λ c'. walk n back up c')) same
walk-collect (branch op flag l r) zero fuel up c h = absurd (omega arith)
walk-collect (branch op flag l r) (suc total) fuel up c h =
    after_bind (open_term flag c) _ _ _ (λ c₁.
      walk-collect l total (suc (passes r + suc fuel)) (left_visited op flag r ∷ up) c₁
        (omega arith)
      ∙ after_bind (collect l c₁) _ _ _ (λ c₂. after_bind (oper_term op flag c₂) _ _ _ (λ c₃.
        walk-collect r (passes r + suc fuel) (suc fuel) (right_visited op flag ∷ up) c₃ refl
        ∙ after_bind (collect r c₃) _ _ _ (λ c₄. refl))))

-- The walk over the whole tree, with one pass for each leaf, three for each logical node and one at
-- the end, does not run out of fuel, and collects what the traversal by recursion does.
pub walk-collect_root :
    (root : Node) → walk (passes root + 1) (at root) [] no_params ≡ some (collect root no_params)
unfolding walk
walk-collect_root root =
    walk-collect root (passes root + 1) 1 [] no_params refl ∙ finish (collect root no_params)
