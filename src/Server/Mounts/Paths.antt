-- ===== src/Server/Mounts/Paths.antt =====
-- What `pathMatches` of pkg/erserver/mountresolver.go decides.
use edgerouter.Base.{
  ℕ, zero, suc, Str, bytes, ◌==◌, eq_iff, has_prefix, has_prefix-append, has_prefix-split,
  has_suffix, trim_right, ◌≡◌, refl, ◌∙◌, ◌↔◌, ◌⊎◌, inl, inr, Bool, true, false, ◌||◌, [], ◌∷◌,
  ◌++◌, append_assoc, arith, length, drop, if◌then◌else◌,
}
use edgerouter.Server.Mounts.{prefix_matches}

abbrev pub slashes : ℕ → Str
slashes zero = []
slashes (suc n) = b'/' ∷ slashes n

trim_right-slashes : (n : ℕ) → trim_right b'/' (slashes n) ≡ []
unfolding trim_right
trim_right-slashes zero = refl
trim_right-slashes (suc n) = rw (trim_right-slashes n, trim_right)

pub trim_right-append :
    (p : Str) (n : ℕ) → has_suffix p b'/' ≡ false → trim_right b'/' (p ++ slashes n) ≡ p
unfolding trim_right has_suffix
trim_right-append [] n h = trim_right-slashes n
trim_right-append (d ∷ []) n h = rw (trim_right-slashes n, trim_right) (ground arith)
trim_right-append (d ∷ e ∷ s) n h = rw (trim_right-append (e ∷ s) n h, trim_right)

-- A path is the prefix itself, or continues it behind a slash.
abbrev pub IsUnder : Str → Str → Type 0
IsUnder path p = (path ≡ p) ⊎ ((rest : Str) × (path ≡ p ++ (b'/' ∷ rest)))

has_prefix_iff_under :
    (path p : Str)
    → (has_prefix path (p ++ bytes "/") ≡ true) ↔ ((rest : Str) × (path ≡ p ++ (b'/' ∷ rest)))
unfolding bytes
has_prefix_iff_under path p = (
  (λ h. (
    drop (length (p ++ b'/' ∷ [])) path,
    has_prefix-split path (p ++ b'/' ∷ []) h ∙ append_assoc p (b'/' ∷ []) _,
  )),
  (λ (rest, e).
      rw (e, ← append_assoc p (b'/' ∷ []) rest) (has_prefix-append (p ++ b'/' ∷ []) rest)),
)

test_iff :
    {A B C : Type 0} (a b c : Bool)
    → (a ≡ true) ↔ A
    → (b ≡ true) ↔ B
    → (c ≡ true) ↔ C
    → ((if a then true else (b || c)) ≡ true) ↔ (A ⊎ (B ⊎ C))
test_iff true b c ha hb hc = ((λ h. inl (ha.0 refl)), (λ h. refl))
test_iff false true c ha hb hc = ((λ h. inr (inl (hb.0 refl))), (λ h. refl))
test_iff false false true ha hb hc = ((λ h. inr (inr (hc.0 refl))), (λ h. refl))
test_iff false false false ha hb hc =
    ((λ h. cc), elim [ inl a ↦ ha.1 a | inr d ↦ elim d [ inl b ↦ hb.1 b | inr c ↦ hc.1 c ] ])

-- A mount whose prefix is `p` with any number of slashes behind it takes exactly the path `p` and
-- the paths that continue it behind a slash; the mount at "/" takes every path.
pub prefix_matches_iff :
    (path prefix p : Str) (n : ℕ)
    → prefix ≡ p ++ slashes n
    → has_suffix p b'/' ≡ false
    → (prefix_matches path prefix ≡ true) ↔ ((prefix ≡ bytes "/") ⊎ IsUnder path p)
unfolding prefix_matches
prefix_matches_iff path prefix p n e h =
    let trimmed : trim_right b'/' prefix ≡ p = rw e (trim_right-append p n h) in
    rw (trimmed, prefix_matches)
      (test_iff (prefix == bytes "/") (path == p) (has_prefix path (p ++ bytes "/"))
        (eq_iff prefix (bytes "/")) (eq_iff path p) (has_prefix_iff_under path p))
