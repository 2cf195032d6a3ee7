-- ===== src/Discovery/Multi.antt =====
-- pkg/erdiscovery/multidiscovery.go and staticdiscovery.go: readers in sequence. A reader may change
-- the state `S`, in which all of them keep what they keep.
use edgerouter.Base.{
  ◌≡◌, refl, sym, ap, subst, ◌∙◌, ◌↔◌, List, [], ◌∷◌, ◌++◌, append-nil, append_assoc, Str, Result,
  ok, err, and_then, and_then-eq-ok, ok-injective,
}
use edgerouter.Config.{Application}

abbrev pub Reader : Type 0 → Type 0
Reader S = S → Result (List Application) × S

unfoldable pub static_discovery : {S : Type 0} → List Application → Reader S
static_discovery apps s = (ok apps, s)

unfoldable pub read_merged : {S : Type 0} → List Application → List (Reader S) → Reader S
read_merged merged [] s = (ok merged, s)
read_merged merged (reader ∷ readers) s =
    and_then (reader s) (λ result s'. read_merged (merged ++ result) readers s')

unfoldable pub multi_discovery : {S : Type 0} → List (Reader S) → Reader S
unfolding read_merged
multi_discovery readers = read_merged [] readers

-- Readers that all succeed, one after the other, each from the state that the one before left.
pub data Reads {S : Type 0} : List (Reader S) → S → List (List Application) → S → Type 0 where
  no_reader : {s : S} → Reads [] s [] s
  a_reader :
      {reader : Reader S} {readers : List (Reader S)} {s s' s'' : S} {apps : List Application}
      {rest : List (List Application)}
      → reader s ≡ (ok apps, s')
      → Reads readers s' rest s''
      → Reads (reader ∷ readers) s (apps ∷ rest) s''

-- The first reader that fails, after readers that succeed.
pub data Fails {S : Type 0} : List (Reader S) → S → Str → S → Type 0 where
  fails_here :
      {reader : Reader S} {readers : List (Reader S)} {s s' : S} {message : Str}
      → reader s ≡ (err message, s')
      → Fails (reader ∷ readers) s message s'
  fails_later :
      {reader : Reader S} {readers : List (Reader S)} {s s' s'' : S} {apps : List Application}
      {message : Str}
      → reader s ≡ (ok apps, s')
      → Fails readers s' message s''
      → Fails (reader ∷ readers) s message s''

abbrev pub concat : List (List Application) → List Application
concat [] = []
concat (apps ∷ rest) = apps ++ concat rest

read_merged-Reads :
    {S : Type 0} (merged : List Application) (readers : List (Reader S)) (s : S)
    (parts : List (List Application)) (s' : S)
    → Reads readers s parts s'
    → read_merged merged readers s ≡ (ok (merged ++ concat parts), s')
unfolding read_merged
read_merged-Reads merged [] s [] s' no_reader = rw (append-nil merged) refl
read_merged-Reads merged [] s (apps ∷ rest) s' h = elim h [ ]
read_merged-Reads merged (reader ∷ readers) s [] s' h = elim h [ ]
read_merged-Reads merged (reader ∷ readers) s (apps ∷ rest) s'' (a_reader now later) =
    rw
      (
        now,
        read_merged-Reads (merged ++ apps) readers _ rest s'' later,
        append_assoc merged apps (concat rest),
      )
      refl

Reads-read_merged :
    {S : Type 0} (merged : List Application) (readers : List (Reader S)) (s : S)
    (apps : List Application) (s' : S)
    → read_merged merged readers s ≡ (ok apps, s')
    → (parts : List (List Application)) × Reads readers s parts s' × (apps ≡ merged ++ concat parts)
unfolding read_merged
Reads-read_merged merged [] s apps s' h =
    let same : s ≡ s' = ap (λ p. p.1) h in
    (
      [],
      subst (Reads [] s []) same no_reader,
      sym (ok-injective (ap (λ p. p.0) h)) ∙ sym (append-nil merged),
    )
Reads-read_merged merged (reader ∷ readers) s apps s'' h =
    let (part, s', now, later) =
      and_then-eq-ok (reader s) (λ result s'. read_merged (merged ++ result) readers s') h in
    let (parts, reads, is) = Reads-read_merged (merged ++ part) readers s' apps s'' later in
    (part ∷ parts, a_reader now reads, is ∙ append_assoc merged part (concat parts))

read_merged-Fails :
    {S : Type 0} (merged : List Application) (readers : List (Reader S)) (s : S) (message : Str)
    (s' : S)
    → Fails readers s message s'
    → read_merged merged readers s ≡ (err message, s')
unfolding read_merged
read_merged-Fails merged [] s message s' h = elim h [ ]
read_merged-Fails merged (reader ∷ readers) s message s'' (fails_here now) = rw now refl
read_merged-Fails merged (reader ∷ readers) s message s'' (fails_later now later) =
    rw now (read_merged-Fails (merged ++ _) readers _ message s'' later)

-- The merged reader succeeds exactly if every reader does, each from the state the one before left,
-- and its result is then theirs in the order of the readers; and if a reader fails after readers that
-- succeed, then the merged reader fails with that reader's message and state.
pub multi_discovery-Reads :
    {S : Type 0} (readers : List (Reader S)) (s s' : S)
    → ((apps : List Application)
        → (multi_discovery readers s ≡ (ok apps, s'))
          ↔ ((parts : List (List Application)) × Reads readers s parts s' × (apps ≡ concat parts)))
      × ((message : Str)
          → Fails readers s message s'
          → multi_discovery readers s ≡ (err message, s'))
unfolding multi_discovery
multi_discovery-Reads readers s s' = (
  λ apps. (
    Reads-read_merged [] readers s apps s',
    λ (parts, reads, is). read_merged-Reads [] readers s parts s' reads ∙ rw is refl,
  ),
  λ message. read_merged-Fails [] readers s message s',
)
