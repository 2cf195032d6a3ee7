-- ===== src/Server/HostRegexp.antt =====
-- pkg/erserver/hostregexp.go: hostname patterns with embedded regular expressions. Package regexp
-- is a parameter but for the fixed expression `\{[^}]+\}`, whose matching is modelled.
pub mod Laws
use edgerouter.Base.{
  ℕ, Str, bytes, Bool, true, false, List, [], ◌∷◌, ◌++◌, Option, none, some, Result, eqb,
  if◌then◌else◌,
}

-- strings.ReplaceAll(in, ".", `\.`)
unfoldable pub escape_regex_chars : Str → Str
escape_regex_chars [] = []
escape_regex_chars (c ∷ s) =
    let rest = escape_regex_chars s in if eqb c b'.' then b'\\' ∷ b'.' ∷ rest else c ∷ rest

-- strings.ReplaceAll(in, `\.`, ".")
unfoldable pub unescape_regex_chars : Str → Str
unescape_regex_chars [] = []
unescape_regex_chars (c ∷ []) = c ∷ []
unescape_regex_chars (c ∷ d ∷ s) =
    let rest = unescape_regex_chars s in
    let rest' = unescape_regex_chars (d ∷ s) in
    if eqb c b'\\' then (if eqb d b'.' then b'.' ∷ rest else c ∷ rest') else c ∷ rest'

abbrev pub Inside : Type 0
Inside = Option Str

-- One byte of ReplaceAllStringFunc with the expression `\{[^}]+\}`: `none` is outside of a match,
-- `some acc` behind an opening brace and the bytes `acc`. The function drops the braces of a match.
abbrev enter : ℕ → Str → Str → Str
enter c inside outside = if eqb c b'{' then inside else c ∷ outside

abbrev close : Str → Str → Str
close [] rest = b'{' ∷ b'}' ∷ rest
close (a ∷ acc) rest = unescape_regex_chars (a ∷ acc) ++ rest

unfoldable pub replace_placeholders : Inside → Str → Str
unfolding unescape_regex_chars
replace_placeholders none [] = []
replace_placeholders (some acc) [] = b'{' ∷ acc
replace_placeholders none (c ∷ s) =
    enter c (replace_placeholders (some []) s) (replace_placeholders none s)
replace_placeholders (some acc) (c ∷ s) =
    let out = replace_placeholders none s in
    let more = replace_placeholders (some (acc ++ c ∷ [])) s in
    if eqb c b'}' then close acc out else more

unfoldable pub hostname_regexp_syntax : Str → Str
unfolding escape_regex_chars replace_placeholders
hostname_regexp_syntax input =
    bytes "^" ++ (replace_placeholders none (escape_regex_chars input) ++ bytes "$")

-- `compile` is regexp.Compile.
module _ {Regexp : Type 0} (compile : Str → Result Regexp) where
  unfoldable pub hostname_regexp_syntax_to_regexp : Str → Result Regexp
  unfolding hostname_regexp_syntax
  hostname_regexp_syntax_to_regexp input = compile (hostname_regexp_syntax input)
