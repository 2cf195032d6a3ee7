-- ===== src/Turbocharger/Header.antt =====
-- pkg/turbocharger/middleware.go: the header by which an origin advertises that it is turbocharged.
use edgerouter.Base.{
  ℕ, ◌≡◌, ◌≢◌, refl, ◌↔◌, inl, inr, Str, bytes, ◌==◌, Bool, true, false, ◌&&◌, List, [], ◌∷◌, ◌++◌,
  Result, ok, err, panic, ◌>>=◌, eqb, All, All_imp, HasNone, cons_head, split, join, split-join,
  Bool-cases, arith, >>=-ok-panic,
}
use edgerouter.Turbocharger.Ids.{ObjectId, Encodings, id_string, object_id_from_string}
use edgerouter.Turbocharger.Ids.RoundTrip.{
  IsFaithful, IsObjectId, is_url_byte, object_id_from_string-id_string,
  object_id_from_string-returns,
}

-- turbochargeSubtree
pub record Subtree : Type 0 where
  pub prefix : Str
  pub manifest_id : ObjectId

abbrev pub subtree_of : Str → ObjectId → Subtree
subtree_of prefix manifest_id = record { prefix = prefix; manifest_id = manifest_id }

unfoldable pub equal : Subtree → Subtree → Bool
equal t other = t.prefix == other.prefix && t.manifest_id == other.manifest_id

-- `parts[0]` and `parts[1]`
abbrev pub first_two : List Str → Result (Str × Str)
first_two [] = panic
first_two (part ∷ []) = panic
first_two (part ∷ second ∷ parts) = ok (part, second)

module _ (enc : Encodings) where
  unfoldable pub header_value : Subtree → Str
  header_value t = t.prefix ++ (bytes " " ++ id_string enc t.manifest_id)

  unfoldable pub parse_tc_header : Str → Result Subtree
  parse_tc_header serialized = do
    parts ← first_two (split b' ' serialized)
    manifest_id ← object_id_from_string enc parts.1
    ok (subtree_of parts.0 manifest_id)

url_text-HasNone : (s : Str) → All (λ c. is_url_byte c ≡ true) s → HasNone b' ' s
url_text-HasNone s h =
    All_imp (λ c. is_url_byte c ≡ true) (λ c. eqb c b' ' ≡ false) s (λ c e. ground arith) h

split-nonempty : (sep : ℕ) (s : Str) → split sep s ≢ []
unfolding split
split-nonempty sep [] h = cc
split-nonempty sep (c ∷ s) h = elim (Bool-cases (eqb c sep)) [
  | inl e ↦ let h' = rw e at h in cc
  | inr e ↦ headed (split sep s) (rw e at h)
]
  where
    headed : (l : List Str) → cons_head c l ≢ []
    headed [] k = cc
    headed (part ∷ parts) k = cc

-- Fewer than two parts: no separator.
split-single_iff : (sep : ℕ) (s : Str) → (first_two (split sep s) ≡ panic) ↔ HasNone sep s
unfolding split
split-single_iff sep [] = ((λ h. tt), (λ h. refl))
split-single_iff sep (c ∷ s) = elim (Bool-cases (eqb c sep)) [
  | inl e ↦ rw e (
    (λ h. absurd (two (split sep s) (split-nonempty sep s) h)),
    (λ h. absurd (let k = h.0 in cc)),
  )
  | inr e ↦
      let (to, from) = split-single_iff sep s in
      rw e (
        (λ h. (refl, to (headed (split sep s) (split-nonempty sep s) h))),
        (λ h. headed_inv (split sep s) (from h.1)),
      )
]
  where
    two : (l : List Str) → l ≢ [] → first_two ([] ∷ l) ≡ panic → ⊥
    two [] n k = n refl
    two (part ∷ parts) n k = cc

    headed : (l : List Str) → l ≢ [] → first_two (cons_head c l) ≡ panic → first_two l ≡ panic
    headed [] n k = refl
    headed (part ∷ []) n k = refl
    headed (part ∷ second ∷ parts) n k = cc

    headed_inv : (l : List Str) → first_two l ≡ panic → first_two (cons_head c l) ≡ panic
    headed_inv [] k = refl
    headed_inv (part ∷ []) k = refl
    headed_inv (part ∷ second ∷ parts) k = cc

-- A subtree whose prefix has no space and whose manifest id is 32 bytes is read back from its
-- header. And, for any header, reading it panics exactly if the header has no space.
pub parse_tc_header-header_value :
    (enc : Encodings)
    → IsFaithful enc
    → ((t : Subtree)
        → HasNone b' ' t.prefix
        → IsObjectId t.manifest_id
        → parse_tc_header enc (header_value enc t) ≡ ok t)
      × ((s : Str) → (parse_tc_header enc s ≡ panic) ↔ HasNone b' ' s)
unfolding parse_tc_header header_value join bytes
parse_tc_header-header_value enc faithful = (
  λ t plain size.
      rw
        (
          split-join b' ' t.prefix (id_string enc t.manifest_id ∷ []) plain
              (url_text-HasNone _ (faithful.alphabet t.manifest_id size), tt),
          object_id_from_string-id_string enc faithful t.manifest_id size,
        )
        refl,
  λ s. (
    λ h. (split-single_iff b' ' s).0 (parts (first_two (split b' ' s)) h),
    λ h. rw ((split-single_iff b' ' s).1 h) refl,
  ),
)
  where
    parts :
        (m : Result (Str × Str))
        → (m >>= λ parts. object_id_from_string enc parts.1 >>= λ manifest_id.
            ok (subtree_of parts.0 manifest_id))
          ≡ panic
        → m ≡ panic
    parts (ok (a, b)) k = absurd (
        object_id_from_string-returns enc faithful b
          (>>=-ok-panic (object_id_from_string enc b) (subtree_of a) k))
    parts (err message) k = cc
    parts panic k = refl
