-- ===== src/Dcg/Printer/Bodies.antt =====
-- The parser reads every printed body.
use opensearch_query_gateway.Shared.{zero, suc, String, ◌∷◌, ◌≡◌, refl, arith}
use opensearch_query_gateway.Dcg.{Expr, Exprs, seq, alt, symbol, terminal, empty, nil, cons}
use mathlib.Core.Path.{subst}
use opensearch_query_gateway.Dcg.Lexer.{Unicode, comma, bar}
use opensearch_query_gateway.Dcg.Parser.{seq_of, alt_of, advance}
use opensearch_query_gateway.Dcg.Parser.Reads.{left}
use opensearch_query_gateway.Dcg.Printer.{
  Marks, closing, item_marks, option_marks, seq_marks, comma_marks, alt_marks, bar_marks,
  body_marks, IsNormal, AreNormal, HasTwo,
}
use opensearch_query_gateway.Dcg.Printer.Feeding.{Stops, EndsBody, EndsBody-Stops, Feeds, Gives-le}
use opensearch_query_gateway.Dcg.Printer.Steps.{skip_comma, next_option}
use opensearch_query_gateway.Dcg.Printer.Expressions.{
  BeginsItem, bar_marks-Stops, ItemGives, SeqGives, ExprGives, ItemsGive, OptionsGive, less,
  list_of, seq_of_list, stopped, ended, one, alone, alt_of_options, parens, symbol_item,
  terminal_item, empty_item,
}

item_marks-BeginsItem : (e : Expr) (rest : Marks) → BeginsItem (item_marks e rest)
unfolding item_marks
item_marks-BeginsItem (symbol name) rest = tt
item_marks-BeginsItem (terminal value) rest = tt
item_marks-BeginsItem (seq es) rest = tt
item_marks-BeginsItem (alt es) rest = tt
item_marks-BeginsItem empty rest = tt

module _ (unicode : Unicode) where
  seq_of_two : (es : Exprs) → HasTwo unicode es → seq_of es ≡ seq es
  unfolding seq_of HasTwo
  seq_of_two nil h = absurd h
  seq_of_two (cons e nil) h = absurd h
  seq_of_two (cons e (cons f es)) h = refl

  alt_of_two : (e : Expr) (es : Exprs) → HasTwo unicode (cons e es) → alt_of e es ≡ alt (cons e es)
  unfolding alt_of HasTwo
  alt_of_two e nil h = absurd h
  alt_of_two e (cons f es) h = refl

  seq_gives :
      (es : Exprs) (ms rest : Marks)
      → HasTwo unicode es
      → ItemsGive unicode es ms rest
      → SeqGives unicode (seq es) ms rest
  seq_gives es ms rest two items =
      subst (λ (e : Expr). SeqGives unicode e ms rest) (seq_of_two es two)
        (seq_of_list unicode es ms rest items)

  -- A list of items behind a comma, and some alternatives behind a bar.
  behind_comma :
      (es : Exprs) (v : String) (ms rest : Marks)
      → ItemsGive unicode es ms rest
      → ItemsGive unicode es ((comma, v) ∷ ms) rest
  unfolding Feeds
  behind_comma es v ms rest items zero p h f = absurd (omega arith)
  behind_comma es v ms rest items (suc n) p h f =
      let smaller = less unicode p comma tt f.0 in
      skip_comma unicode n p es rest (left p) f.0 (
        Gives-le unicode (left (advance unicode p)) (left p) (omega arith)
          (items n (advance unicode p) (omega arith) f.2))

  behind_bar :
      (e : Expr) (es : Exprs) (v : String) (ms mid rest : Marks)
      → SeqGives unicode e ms mid
      → OptionsGive unicode es mid rest
      → OptionsGive unicode (cons e es) ((bar, v) ∷ ms) rest
  unfolding Feeds
  behind_bar e es v ms mid rest first later zero p h f = absurd (omega arith)
  behind_bar e es v ms mid rest first later (suc n) p h f =
      let smaller = less unicode p bar tt f.0 in
      Gives-le unicode (left (advance unicode p)) (left p) (omega arith) (
        next_option unicode n p e es mid rest (left (advance unicode p)) f.0
          (first n (advance unicode p) (omega arith) f.2) λ q g l. later n q (omega arith) g)

  mutual
    unfolding item_marks IsNormal

    item_gives :
        (e : Expr) (rest : Marks)
        → IsNormal unicode e
        → ItemGives unicode e (item_marks e rest) rest
    item_gives (symbol name) rest h = symbol_item unicode name rest
    item_gives (terminal value) rest h = terminal_item unicode value rest
    item_gives (seq es) rest h =
        let inside = closing ∷ rest in
        parens unicode (seq es) (seq_marks es inside) rest (
          alone unicode (seq es) (seq_marks es inside) inside tt
            (seq_gives es (seq_marks es inside) inside h.1 (items_give es inside h.0 tt)))
    item_gives (alt es) rest h =
        parens unicode (alt es) (alt_marks es (closing ∷ rest)) rest
          (alt_gives es (closing ∷ rest) h.0 h.1 tt)
    item_gives empty rest h = empty_item unicode rest

    option_gives :
        (e : Expr) (rest : Marks)
        → IsNormal unicode e
        → Stops rest
        → SeqGives unicode e (option_marks e rest) rest
    option_gives (symbol name) rest h s =
        one unicode (symbol name) (item_marks (symbol name) rest) rest tt s
          (symbol_item unicode name rest)
    option_gives (terminal value) rest h s =
        one unicode (terminal value) (item_marks (terminal value) rest) rest tt s
          (terminal_item unicode value rest)
    option_gives (seq es) rest h s =
        seq_gives es (seq_marks es rest) rest h.1 (items_give es rest h.0 s)
    option_gives (alt es) rest h s = one unicode (alt es) (item_marks (alt es) rest) rest tt s (
        parens unicode (alt es) (alt_marks es (closing ∷ rest)) rest
          (alt_gives es (closing ∷ rest) h.0 h.1 tt))
    option_gives empty rest h s =
        one unicode empty (item_marks empty rest) rest tt s (empty_item unicode rest)

    items_give :
        (es : Exprs) (rest : Marks)
        → AreNormal unicode es
        → Stops rest
        → ItemsGive unicode es (seq_marks es rest) rest
    items_give nil rest h s = stopped unicode rest s
    items_give (cons e es) rest h s =
        list_of unicode e es (item_marks e (comma_marks es rest)) (comma_marks es rest) rest
          (item_marks-BeginsItem e (comma_marks es rest)) (item_gives e (comma_marks es rest) h.0)
          (more_give es rest h.1 s)

    more_give :
        (es : Exprs) (rest : Marks)
        → AreNormal unicode es
        → Stops rest
        → ItemsGive unicode es (comma_marks es rest) rest
    more_give nil rest h s = stopped unicode rest s
    more_give (cons e es) rest h s =
        let ms = item_marks e (comma_marks es rest) in
        behind_comma (cons e es) "," ms rest (
          list_of unicode e es ms (comma_marks es rest) rest
            (item_marks-BeginsItem e (comma_marks es rest)) (item_gives e (comma_marks es rest) h.0)
            (more_give es rest h.1 s))

    alt_gives :
        (es : Exprs) (rest : Marks)
        → AreNormal unicode es
        → HasTwo unicode es
        → EndsBody rest
        → ExprGives unicode (alt es) (alt_marks es rest) rest
    alt_gives nil rest h two s = absurd two
    alt_gives (cons e es) rest h two s =
        let mid = bar_marks es rest in
        subst (λ (a : Expr). ExprGives unicode a (option_marks e mid) rest) (alt_of_two e es two)
          (alt_of_options unicode e es (option_marks e mid) mid rest
            (option_gives e mid h.0 (bar_marks-Stops es rest s)) (options_give es rest h.1 s))

    options_give :
        (es : Exprs) (rest : Marks)
        → AreNormal unicode es
        → EndsBody rest
        → OptionsGive unicode es (bar_marks es rest) rest
    options_give nil rest h s = ended unicode rest s
    options_give (cons e es) rest h s =
        let mid = bar_marks es rest in
        behind_bar e es "|" (option_marks e mid) mid rest
          (option_gives e mid h.0 (bar_marks-Stops es rest s)) (options_give es rest h.1 s)

  -- A printed body is read back, and what stands behind it is left.
  pub body_gives :
      (e : Expr) (rest : Marks)
      → IsNormal unicode e
      → EndsBody rest
      → ExprGives unicode e (body_marks e rest) rest
  unfolding body_marks IsNormal
  body_gives (alt es) rest h s = alt_gives es rest h.0 h.1 s
  body_gives e rest h s =
      alone unicode e (option_marks e rest) rest s (option_gives e rest h (EndsBody-Stops rest s))
