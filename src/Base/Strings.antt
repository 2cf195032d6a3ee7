-- ===== src/Base/Strings.antt =====
-- Go strings: sequences of bytes, with the functions of package `strings` that the program calls.
use Prim.Native.Nat.{ℕ}
use Prim.Native.Char.{code}
use Prim.Native.String.{String}
use mathlib.Core.Path.{◌≡◌, refl, ap, ◌∙◌}
use mathlib.Core.Logic.{◌↔◌, ◌≢◌}
use mathlib.Core.Bool.{Bool, true, false, ◌&&◌, ◌||◌}
use mathlib.Core.List.{List, [], ◌∷◌, ◌++◌}
use native.Mathlib.Omega.{arith}
use edgerouter.Base.Tests.{eqb, if◌then◌else◌}
use edgerouter.Base.Lists.{length, drop, All}

abbrev pub Str : Type 0
Str = List ℕ

-- The bytes of a literal of ASCII characters.
unfoldable pub bytes : String → Str
bytes String.[] = []
bytes (String.◌∷◌ c s) = code c ∷ bytes s

infix 50 ◌==◌
unfoldable pub ◌==◌ : Str → Str → Bool
[] == [] = true
[] == (d ∷ t) = false
(c ∷ s) == [] = false
(c ∷ s) == (d ∷ t) = eqb c d && s == t

pub eq_iff : (s t : Str) → ((s == t) ≡ true) ↔ (s ≡ t)
unfolding ◌==◌
eq_iff [] [] = ((λ h. refl), (λ h. refl))
eq_iff [] (d ∷ t) = ((λ h. cc), (λ h. cc))
eq_iff (c ∷ s) [] = ((λ h. cc), (λ h. cc))
eq_iff (c ∷ s) (d ∷ t) = ground (arith, eq_iff s t)

pub eq_refl : (s : Str) → (s == s) ≡ true
eq_refl s = (eq_iff s s).1 refl

pub ne→eq-false : (s t : Str) → s ≢ t → (s == t) ≡ false
ne→eq-false s t h = ground (arith, eq_iff s t)

-- strings.HasPrefix(s, p)
unfoldable pub has_prefix : Str → Str → Bool
has_prefix s [] = true
has_prefix [] (d ∷ p) = false
has_prefix (c ∷ s) (d ∷ p) = eqb c d && has_prefix s p

pub has_prefix-append : (p s : Str) → has_prefix (p ++ s) p ≡ true
unfolding has_prefix
has_prefix-append [] s = refl
has_prefix-append (c ∷ p) s = ground (arith, has_prefix-append p s)

-- A string with a prefix is the prefix and what the slice `s[len(p):]` leaves.
pub has_prefix-split : (s p : Str) → has_prefix s p ≡ true → s ≡ p ++ drop (length p) s
unfolding has_prefix
has_prefix-split s [] h = refl
has_prefix-split [] (d ∷ p) h = cc
has_prefix-split (c ∷ s) (d ∷ p) h = ground (arith, has_prefix-split s p)

-- strings.TrimLeft(s, string(c)) for a cutset of one byte.
unfoldable pub trim_left : ℕ → Str → Str
trim_left c [] = []
trim_left c (d ∷ s) = if eqb c d then trim_left c s else d ∷ s

-- strings.TrimRight(s, string(c)) for a cutset of one byte.
unfoldable pub trim_right : ℕ → Str → Str
trim_right c [] = []
trim_right c (d ∷ s) =
    let rest = trim_right c s in
    elim rest [ [] ↦ if eqb c d then [] else d ∷ [] | e ∷ r ↦ d ∷ e ∷ r ]

-- strings.HasSuffix(s, string(c)) for a suffix of one byte.
unfoldable pub has_suffix : Str → ℕ → Bool
has_suffix [] c = false
has_suffix (d ∷ []) c = eqb d c
has_suffix (d ∷ e ∷ s) c = has_suffix (e ∷ s) c

-- strings.Contains(s, p)
unfoldable pub contains : Str → Str → Bool
unfolding has_prefix
contains [] p = has_prefix [] p
contains (c ∷ s) p = has_prefix (c ∷ s) p || contains s p

-- strings.Split(s, string(sep)) for a separator of one byte: never empty.
abbrev pub cons_head : ℕ → List Str → List Str
cons_head c [] = (c ∷ []) ∷ []
cons_head c (part ∷ parts) = (c ∷ part) ∷ parts

unfoldable pub split : ℕ → Str → List Str
split sep [] = [] ∷ []
split sep (c ∷ s) = if eqb c sep then [] ∷ split sep s else cons_head c (split sep s)

-- strings.Join(parts, sep)
unfoldable pub join : Str → List Str → Str
join sep [] = []
join sep (p ∷ []) = p
join sep (p ∷ q ∷ parts) = p ++ (sep ++ join sep (q ∷ parts))

-- The byte does not stand in the string.
abbrev pub HasNone : ℕ → Str → Type 0
HasNone b = All (λ c. eqb c b ≡ false)

split-last : (sep : ℕ) (p : Str) → HasNone sep p → split sep p ≡ p ∷ []
unfolding split
split-last sep [] n = refl
split-last sep (c ∷ p) n = rw (n.0, split-last sep p n.1)

pub split-part :
    (sep : ℕ) (p t : Str) → HasNone sep p → split sep (p ++ (sep ∷ t)) ≡ p ∷ split sep t
unfolding split
split-part sep [] t n = ground arith
split-part sep (c ∷ p) t n = rw (n.0, split-part sep p t n.1)

-- Splitting undoes joining, for at least one part and parts without the separator.
pub split-join :
    (sep : ℕ) (p : Str) (ps : List Str)
    → HasNone sep p
    → All (HasNone sep) ps
    → split sep (join (sep ∷ []) (p ∷ ps)) ≡ p ∷ ps
unfolding join
split-join sep p [] n ns = split-last sep p n
split-join sep p (q ∷ ps) n ns =
    split-part sep p (join (sep ∷ []) (q ∷ ps)) n ∙ ap (λ l. p ∷ l) (split-join sep q ps ns.0 ns.1)
