-- ===== src/Dcg.antt =====
-- internal/dcg/ast.go and internal/dcg/errors.go: the grammars that rule files may hold. A list of
-- expressions inside an expression is a type of its own.
pub mod Lexer
pub mod Parser
pub mod Generator
pub mod Printer
use opensearch_query_gateway.Shared.{ℕ, String}

mutual
  pub data Expr : Type 0 where
    seq : Exprs → Expr
    alt : Exprs → Expr
    symbol : (name : String) → Expr
    terminal : (value : String) → Expr
    empty : Expr

  pub data Exprs : Type 0 where
    nil : Exprs
    cons : Expr → Exprs → Exprs

pub record Rule : Type 0 where
  pub head : String
  pub body : Expr

pub record ParseError : Type 0 where
  pub pos : ℕ
  pub msg : String
