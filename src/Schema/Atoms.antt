-- ===== src/Schema/Atoms.antt =====
-- internal/schema/prolog_writer.go: `atom`, the text of a Prolog atom, and how Prolog reads it.
pub mod Reading
use Prim.Native.Char.{Char, code}
use Prim.Native.String
use opensearch_query_gateway.Shared.{
  ℕ, String, Bool, true, false, not, ◌||◌, ◌&&◌, Option, none, some, List, [], ◌∷◌, ◌++◌, ◌≡◌, refl,
  sym, ap, ◌∙◌, str_eq, if◌then◌else◌, ◌==◌, within, all, codes, ◌<>◌, is_empty, Bool-cases, inl,
  inr, arith, append_assoc,
}

abbrev pub is_lower : ℕ → Bool
is_lower c = within b'a' b'z' c

abbrev pub is_name_char : ℕ → Bool
is_name_char c = within b'a' b'z' c || within b'A' b'Z' c || within b'0' b'9' c || c == b'_'

-- The loop over the characters: the text is an atom without quotes.
unfoldable pub is_bare : List ℕ → Bool
is_bare [] = false
is_bare (c ∷ cs) = is_lower c && all is_name_char cs

-- `strings.ReplaceAll` of one character.
unfoldable pub replace_all : ℕ → String → String → String
replace_all old new String.[] = ""
replace_all old new (String.◌∷◌ c s) =
    let rest = replace_all old new s in if code c == old then new <> rest else String.◌∷◌ c rest

unfoldable pub escape : String → String
unfolding replace_all
escape s = replace_all b'\'' "\\'" (replace_all b'\\' "\\\\" s)

unfoldable pub atom : String → String
unfolding is_bare escape
atom s = if is_empty s then "''" else if is_bare (codes s) then s else "'" <> escape s <> "'"
