-- ===== src/Server/HostRegexp/Laws.antt =====
-- What hostnameRegexpSyntaxToRegexp of pkg/erserver/hostregexp.go makes of a pattern.
use edgerouter.Base.{
  ℕ, Str, ◌≡◌, ◌≢◌, refl, ap, ◌∙◌, inl, inr, false, [], ◌∷◌, ◌++◌, append_assoc, none, some,
  append-nil, arith, eqb, eqb_iff, HasNone, Bool-cases,
}
use edgerouter.Server.HostRegexp.{escape_regex_chars, unescape_regex_chars, replace_placeholders}

keep :
    (c : ℕ) (s : Str)
    → unescape_regex_chars (c ∷ escape_regex_chars s)
      ≡ c ∷ unescape_regex_chars (escape_regex_chars s)
unfolding escape_regex_chars unescape_regex_chars
keep c [] = refl
keep c (d ∷ s) = elim (Bool-cases (eqb d b'.')) [
  | inl e ↦ rw e (ground arith)
  | inr e ↦ rw e (ground arith)
]

-- Unescaping undoes the escaping, for every text.
pub unescape-escape : (s : Str) → unescape_regex_chars (escape_regex_chars s) ≡ s
unfolding escape_regex_chars unescape_regex_chars
unescape-escape [] = refl
unescape-escape (c ∷ s) = elim (Bool-cases (eqb c b'.')) [
  | inl e ↦ rw (e, unescape-escape s, (eqb_iff c b'.').0 e)
  | inr e ↦ rw e (keep c s ∙ ap (λ r. c ∷ r) (unescape-escape s))
]

escape-append :
    (s t : Str) → escape_regex_chars (s ++ t) ≡ escape_regex_chars s ++ escape_regex_chars t
unfolding escape_regex_chars
escape-append [] t = refl
escape-append (c ∷ s) t = ground (arith, escape-append s t)

escape-HasNone :
    (b : ℕ) (s : Str)
    → eqb b'\\' b ≡ false
    → eqb b'.' b ≡ false
    → HasNone b s
    → HasNone b (escape_regex_chars s)
unfolding escape_regex_chars
escape-HasNone b [] h k n = tt
escape-HasNone b (c ∷ s) h k n = elim (Bool-cases (eqb c b'.')) [
  | inl e ↦ rw e (h, (k, escape-HasNone b s h k n.1))
  | inr e ↦ rw e (n.0, escape-HasNone b s h k n.1)
]

outside :
    (s t : Str)
    → HasNone b'{' s
    → replace_placeholders none (s ++ t) ≡ s ++ replace_placeholders none t
unfolding replace_placeholders
outside [] t n = refl
outside (c ∷ s) t n = rw (n.0) (ap (λ r. c ∷ r) (outside s t n.1))

inside :
    (acc s t : Str)
    → HasNone b'}' s
    → replace_placeholders (some acc) (s ++ t) ≡ replace_placeholders (some (acc ++ s)) t
unfolding replace_placeholders
inside acc [] t n = rw (append-nil acc)
inside acc (c ∷ s) t n =
    rw (n.0) (inside (acc ++ c ∷ []) s t n.1 ∙ rw (append_assoc acc (c ∷ []) s))

-- Replacing a placeholder that holds at least one byte and no closing brace gives the bytes
-- between the braces, unescaped.
placeholder :
    (re t : Str)
    → re ≢ []
    → HasNone b'}' re
    → replace_placeholders none (b'{' ∷ (re ++ b'}' ∷ t))
      ≡ unescape_regex_chars re ++ replace_placeholders none t
unfolding replace_placeholders
placeholder [] t nonempty n = absurd (nonempty refl)
placeholder (a ∷ re) t nonempty n = rw (n.0) (inside (a ∷ []) re (b'}' ∷ t) n.1)

escape-ne-nil : (s : Str) → s ≢ [] → escape_regex_chars s ≢ []
unfolding escape_regex_chars
escape-ne-nil [] h = absurd (h refl)
escape-ne-nil (c ∷ s) h = ground arith

escape-braced :
    (literal re rest : Str)
    → escape_regex_chars (literal ++ (b'{' ∷ (re ++ (b'}' ∷ rest))))
      ≡ escape_regex_chars literal
        ++ (b'{' ∷ (escape_regex_chars re ++ (b'}' ∷ escape_regex_chars rest)))
unfolding escape_regex_chars
escape-braced literal re rest =
    rw (escape-append literal (b'{' ∷ (re ++ (b'}' ∷ rest))), escape-append re (b'}' ∷ rest))

-- A pattern `literal{re}rest` becomes the literal with its dots escaped, then `re` as it was
-- written, then what the rest becomes. The literal has no opening brace; `re` is not empty and
-- has no closing brace.
pub replace-escape :
    (literal re rest : Str)
    → re ≢ []
    → HasNone b'{' literal
    → HasNone b'}' re
    → replace_placeholders none (escape_regex_chars (literal ++ (b'{' ∷ (re ++ (b'}' ∷ rest)))))
      ≡ escape_regex_chars literal ++ (re ++ replace_placeholders none (escape_regex_chars rest))
replace-escape literal re rest nonempty nl nr = rw (
  escape-braced literal re rest,
  outside (escape_regex_chars literal) _ (escape-HasNone b'{' literal refl refl nl),
  placeholder (escape_regex_chars re) (escape_regex_chars rest) (escape-ne-nil re nonempty)
      (escape-HasNone b'}' re refl refl nr),
  unescape-escape re,
)
