-- ===== src/Server/Mounts/Tiers.antt =====
-- The three tiers of pkg/erserver/mountresolver.go's matchers, as functions of what was declared:
-- an abstract view that `add_frontend` implements up to the order inside a tier.
use edgerouter.Base.{
  Str, ◌==◌, ◌≡◌, refl, inl, inr, Bool, true, false, List, [], ◌∷◌, ◌++◌, append_assoc, Result, ok,
  err, panic, arith, find, find-append, All, Any, Bool-cases, if◌then◌else◌,
}
use edgerouter.Base.Dict.{lookup}
use edgerouter.Config.{FrontendKind, Frontend, Application}
use edgerouter.Server.Mounts.{
  Mount, HostnameRegexp, FrontendMatchers, mount_of, or_empty, path_matches, resolve_regexps,
  resolve_mount,
}

-- A frontend with its application and the handler that was made for it.
pub record Entry (H : Type 0) : Type 0 where
  pub app : Application
  pub handler : H
  pub frontend : Frontend

abbrev pub is_path_prefix : Frontend → Bool
is_path_prefix f = elim f.kind [ FrontendKind.path_prefix ↦ true | _ ↦ false ]

abbrev pub is_hostname : Str → Frontend → Bool
is_hostname host f = elim f.kind [ FrontendKind.hostname ↦ f.hostname == host | _ ↦ false ]

abbrev pub compiled_matches : {R : Type 0} → (R → Str → Bool) → Str → Result R → Bool
compiled_matches match_string host (ok re) = match_string re host
compiled_matches match_string host (err e) = false
compiled_matches match_string host panic = false

module _ {R : Type 0} (compile : Str → Result R) (match_string : R → Str → Bool) where
  abbrev pub is_regexp : Str → Frontend → Bool
  is_regexp host f = elim f.kind [
    | FrontendKind.hostname_regexp ↦ compiled_matches match_string host (compile f.hostname_regexp)
    | _ ↦ false
  ]

module _ {H : Type 0} where
  abbrev pub entry_mount : Entry H → Mount H
  entry_mount e = mount_of e.app e.handler e.frontend

  -- The mounts of the entries whose frontend passes a test, in the order of declaration.
  abbrev pub tier : (Frontend → Bool) → List (Entry H) → List (Mount H)
  tier test [] = []
  tier test (e ∷ es) = if test e.frontend then entry_mount e ∷ tier test es else tier test es

  pub tier-append :
      (test : Frontend → Bool) (es fs : List (Entry H))
      → tier test (es ++ fs) ≡ tier test es ++ tier test fs
  tier-append test [] fs = refl
  tier-append test (e ∷ es) fs = ground (arith, tier-append test es fs)

module _ {R H : Type 0} (match_string : R → Str → Bool) where
  abbrev pub regexp_mounts : Str → List (HostnameRegexp R H) → List (Mount H)
  regexp_mounts host [] = []
  regexp_mounts host (hr ∷ hrs) =
      if match_string hr.regexp host
      then hr.mounts ++ regexp_mounts host hrs
      else regexp_mounts host hrs

  pub regexp_mounts-append :
      (host : Str) (hrs ks : List (HostnameRegexp R H))
      → regexp_mounts host (hrs ++ ks) ≡ regexp_mounts host hrs ++ regexp_mounts host ks
  regexp_mounts-append host [] ks = refl
  regexp_mounts-append host (hr ∷ hrs) ks = elim (Bool-cases (match_string hr.regexp host)) [
    | inl e ↦ rw (e, regexp_mounts-append host hrs ks, append_assoc)
    | inr e ↦ rw (e, regexp_mounts-append host hrs ks)
  ]

  -- The mounts that are considered for a hostname, in the order in which they are.
  abbrev pub candidates : Str → FrontendMatchers R H → List (Mount H)
  candidates host fem =
      fem.path_prefix
      ++ (or_empty (lookup host fem.hostname) ++ regexp_mounts host fem.hostname_regexp)

  resolve_regexps-find :
      (host path : Str) (hrs : List (HostnameRegexp R H))
      → resolve_regexps match_string host path hrs
        ≡ find (path_matches path) (regexp_mounts host hrs)
  unfolding resolve_regexps
  resolve_regexps-find host path [] = refl
  resolve_regexps-find host path (hr ∷ hrs) = elim (Bool-cases (match_string hr.regexp host)) [
    | inl e ↦ rw (e, resolve_regexps-find host path hrs, find-append)
    | inr e ↦ rw (e, resolve_regexps-find host path hrs)
  ]

  -- Resolving is the search for the first candidate whose prefix matches the path.
  pub resolve_mount-find :
      (host path : Str) (fem : FrontendMatchers R H)
      → resolve_mount match_string host path fem ≡ find (path_matches path) (candidates host fem)
  unfolding resolve_mount
  resolve_mount-find host path fem =
      rw (resolve_regexps-find host path fem.hostname_regexp, find-append, find-append)

-- What holds of a tier, in terms of the entries.
module _ {H : Type 0} (test : Frontend → Bool) (P : Mount H → Type 0) where
  pub Any-tier :
      (es : List (Entry H))
      → Any P (tier test es)
      → Any (λ e. (test e.frontend ≡ true) × P (entry_mount e)) es
  Any-tier [] h = h
  Any-tier (e ∷ es) h = elim (Bool-cases (test e.frontend)) [
    | inl t ↦
        let h' : Any P (entry_mount e ∷ tier test es) = rw t at h in
        elim h' [ inl here ↦ inl (t, here) | inr there ↦ inr (Any-tier es there) ]
    | inr t ↦ inr (Any-tier es (rw t at h))
  ]

  pub All-tier :
      (es : List (Entry H))
      → All P (tier test es)
      → All (λ e. test e.frontend ≡ true → P (entry_mount e)) es
  All-tier [] h = h
  All-tier (e ∷ es) h = elim (Bool-cases (test e.frontend)) [
    | inl t ↦
        let h' : All P (entry_mount e ∷ tier test es) = rw t at h in ((λ _. h'.0), All-tier es h'.1)
    | inr t ↦ ((λ u. cc), All-tier es (rw t at h))
  ]

  pub tier-All :
      (es : List (Entry H))
      → All (λ e. test e.frontend ≡ true → P (entry_mount e)) es
      → All P (tier test es)
  tier-All [] h = h
  tier-All (e ∷ es) h = elim (Bool-cases (test e.frontend)) [
    | inl t ↦ rw t (h.0 t, tier-All es h.1)
    | inr t ↦ rw t (tier-All es h.1)
  ]
