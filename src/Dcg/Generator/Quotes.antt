-- ===== src/Dcg/Generator/Quotes.antt =====
-- How Prolog reads the terminals of a generated clause.
use opensearch_query_gateway.Shared.{ℕ, String, List, some, ◌++◌, ◌≡◌, codes}
use opensearch_query_gateway.Schema.Atoms.{escape}
use opensearch_query_gateway.Schema.Atoms.Reading.{read_atom, Ends, quoted}
use opensearch_query_gateway.Dcg.Generator.{quote_atom}

-- A Prolog reader takes the atom that quoteAtom writes back to the text of the terminal, whatever
-- its characters are, if what stands behind it does not begin with a letter, a digit, `_` or a
-- quote; and it leaves exactly what stands behind it.
pub read_atom-quote_atom :
    (s : String) (rest : List ℕ)
    → Ends rest
    → read_atom (codes (quote_atom s) ++ rest) ≡ some (codes s, rest)
unfolding quote_atom escape
read_atom-quote_atom s rest e = quoted s rest e
