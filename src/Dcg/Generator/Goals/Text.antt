-- ===== src/Dcg/Generator/Goals/Text.antt =====
-- The generator's text is that of its goals.
use opensearch_query_gateway.Shared.{ℕ, ◌+◌, String, ◌∷◌, ◌≡◌, refl, ◌∙◌, join}
use opensearch_query_gateway.Dcg.{Expr, Exprs, seq, alt, symbol, terminal, empty, nil, cons}
use opensearch_query_gateway.Dcg.Generator.{gen_expr, gen_seq, gen_parts, gen_options}
use opensearch_query_gateway.Dcg.Generator.Goals.{
  Var, input, output, fresh, goal_of, seq_goal, part_goals, option_goals, name_of, print, print_all,
}

-- What a text is made of, part by part: the counter goes from one part to the next.
after_first :
    {A B C : Type 0} (G : A → B → C) (F : ℕ → B × ℕ) {r s : A × ℕ} {w : B × ℕ}
    → r ≡ s
    → F s.1 ≡ w
    → ◌≡◌ {A = C × ℕ} (G r.0 (F r.1).0, (F r.1).1) (G s.0 w.0, w.1)
after_first {C = C} G F {s = s} p q =
    let left : ◌≡◌ {A = C × ℕ} _ (G s.0 (F s.1).0, (F s.1).1) =
      λ i. (G (p i).0 (F (p i).1).0, (F (p i).1).1) in
    left ∙ λ i. (G s.0 (q i).0, (q i).1)

module _ (show : ℕ → String) where
  mutual
    unfolding gen_expr goal_of print join

    expr_text :
        (e : Expr) (a b : Var) (k : ℕ)
        → gen_expr show e (name_of show a) (name_of show b) k
          ≡ (print show (goal_of e a b k).0, (goal_of e a b k).1)
    expr_text (symbol name) a b k = refl
    expr_text (terminal value) a b k = refl
    expr_text (seq items) a b k = seq_text items a b k
    expr_text (alt opts) a b k = rw (options_text opts a b k)
    expr_text empty a b k = refl

    seq_text :
        (es : Exprs) (a b : Var) (k : ℕ)
        → gen_seq show es (name_of show a) (name_of show b) k
          ≡ (print show (seq_goal es a b k).0, (seq_goal es a b k).1)
    seq_text nil a b k = refl
    seq_text (cons e nil) a b k = expr_text e a b k
    seq_text (cons e (cons f es)) a b k =
        let mid = fresh (k + 1) in
        after_first (λ t ts. join ", " (t ∷ ts))
          (gen_parts show (cons f es) (name_of show mid) (name_of show b))
          (expr_text e a mid (k + 1)) (parts_text (cons f es) mid b (goal_of e a mid (k + 1)).1)

    parts_text :
        (es : Exprs) (a b : Var) (k : ℕ)
        → gen_parts show es (name_of show a) (name_of show b) k
          ≡ (print_all show (part_goals es a b k).0, (part_goals es a b k).1)
    parts_text nil a b k = refl
    parts_text (cons e nil) a b k = rw (expr_text e a b k)
    parts_text (cons e (cons f es)) a b k =
        let mid = fresh (k + 1) in
        after_first ◌∷◌ (gen_parts show (cons f es) (name_of show mid) (name_of show b))
          (expr_text e a mid (k + 1)) (parts_text (cons f es) mid b (goal_of e a mid (k + 1)).1)

    options_text :
        (es : Exprs) (a b : Var) (k : ℕ)
        → gen_options show es (name_of show a) (name_of show b) k
          ≡ (print_all show (option_goals es a b k).0, (option_goals es a b k).1)
    options_text nil a b k = refl
    options_text (cons e es) a b k =
        after_first ◌∷◌ (gen_options show es (name_of show a) (name_of show b)) (expr_text e a b k)
          (options_text es a b (goal_of e a b k).1)

  pub gen_expr-print :
      (e : Expr) (k : ℕ)
      → gen_expr show e "S0" "S" k
        ≡ (print show (goal_of e input output k).0, (goal_of e input output k).1)
  gen_expr-print e k = expr_text e input output k
