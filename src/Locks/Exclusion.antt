-- ===== src/Locks/Exclusion.antt =====
-- pkg/syncutil/mutexmap.go: a name is locked by one holder at a time.
use edgerouter.Base.{
  ℕ, suc, ◌<◌, ◌≡◌, ◌≢◌, refl, sym, ap, ◌∙◌, subst, ◌↔◌, inl, inr, Str, ◌==◌, eq_iff, eq_refl, true,
  false, ◌||◌, List, [], ◌∷◌, Option, none, some, ok, ok-injective, eqb, eqb_iff, if◌then◌else◌,
  Bool-cases, Option-cases, arith,
}
use edgerouter.Base.Dict.{lookup, insert, delete, lookup-insert, lookup-delete}
use edgerouter.Base.Dict.Keys.{HasUniqueKeys, delete-HasUniqueKeys}
use edgerouter.Locks.{
  MutexMap, new_mutex_map, is_closed, unlock_func, try_again, try_lock_found, try_lock_internal,
  try_lock, unlock, World, Step, locked, refused, unlocked, Reachable, start, then_step,
}

-- Channels in use are open, and each belongs to one name.
pub record IsConsistent (n : MutexMap) (held : List (Str × ℕ)) : Type 0 where
  pub used :
      (key : Str) (c : ℕ)
      → lookup key n.locks ≡ some c
      → (c < n.next_chan) × (is_closed n.closed c ≡ false)
  pub apart :
      (key other : Str) (c : ℕ)
      → lookup key n.locks ≡ some c
      → lookup other n.locks ≡ some c
      → key ≡ other
  pub past : (c : ℕ) → is_closed n.closed c ≡ true → c < n.next_chan
  pub same : (key : Str) → lookup key held ≡ lookup key n.locks
  pub unique : HasUniqueKeys held

start-IsConsistent : IsConsistent new_mutex_map []
unfolding lookup is_closed
start-IsConsistent = record {
  used = λ key c h. cc;
  apart = λ key other c h k. cc;
  past = λ c h. cc;
  same = λ key. refl;
  unique = tt;
}

locked-IsConsistent :
    (key : Str) (n : MutexMap) (held : List (Str × ℕ))
    → lookup key n.locks ≡ none
    → IsConsistent n held
    → IsConsistent
        (record n { locks = insert key n.next_chan n.locks; next_chan = suc n.next_chan })
        ((key, n.next_chan) ∷ held)
unfolding lookup
locked-IsConsistent key n held free i = record {
  used = λ k c h. used k c (sym (lookup-insert key k n.next_chan n.locks) ∙ h);
  apart = λ k j c h g.
      apart k j c (sym (lookup-insert key k n.next_chan n.locks) ∙ h)
        (sym (lookup-insert key j n.next_chan n.locks) ∙ g);
  past = λ c h. let p = i.past c h in omega arith;
  same = λ k.
      ap (λ found. if key == k then some n.next_chan else found) (i.same k)
      ∙ sym (lookup-insert key k n.next_chan n.locks);
  unique = (i.same key ∙ free, i.unique);
}
  where
    fresh : is_closed n.closed n.next_chan ≡ false
    fresh = elim (Bool-cases (is_closed n.closed n.next_chan)) [
      | inl e ↦ let p = i.past n.next_chan e in absurd (omega arith)
      | inr e ↦ e
    ]

    used :
        (k : Str) (c : ℕ)
        → (if key == k then some n.next_chan else lookup k n.locks) ≡ some c
        → (c < suc n.next_chan) × (is_closed n.closed c ≡ false)
    used k c h = elim (Bool-cases (key == k)) [
      | inl e ↦
          let is : some n.next_chan ≡ some c = rw e at h in
          let is' : n.next_chan ≡ c = cc in (omega arith, rw (← is') fresh)
      | inr e ↦ let (p, q) = i.used k c (rw e at h) in (omega arith, q)
    ]

    apart :
        (k j : Str) (c : ℕ)
        → (if key == k then some n.next_chan else lookup k n.locks) ≡ some c
        → (if key == j then some n.next_chan else lookup j n.locks) ≡ some c
        → k ≡ j
    apart k j c h g = elim (Bool-cases (key == k)) [
      | inl e ↦ elim (Bool-cases (key == j)) [
        | inl f ↦ sym ((eq_iff key k).0 e) ∙ (eq_iff key j).0 f
        | inr f ↦
            let is : some n.next_chan ≡ some c = rw e at h in
            let is' : n.next_chan ≡ c = cc in
            let (p, q) = i.used j c (rw f at g) in absurd (omega arith)
      ]
      | inr e ↦ elim (Bool-cases (key == j)) [
        | inl f ↦
            let is : some n.next_chan ≡ some c = rw f at g in
            let is' : n.next_chan ≡ c = cc in
            let (p, q) = i.used k c (rw e at h) in absurd (omega arith)
        | inr f ↦ i.apart k j c (rw e at h) (rw f at g)
      ]
    ]

unlocked-IsConsistent :
    (key : Str) (chan : ℕ) (n : MutexMap) (held : List (Str × ℕ))
    → lookup key n.locks ≡ some chan
    → IsConsistent n held
    → IsConsistent
        (record n { locks = delete key n.locks; closed = chan ∷ n.closed })
        (delete key held)
unfolding is_closed
unlocked-IsConsistent key chan n held taken i = record {
  used = λ k c h. used k c (sym (lookup-delete key k n.locks) ∙ h);
  apart = λ k j c h g.
      i.apart k j c (kept k c (sym (lookup-delete key k n.locks) ∙ h)).1
        (kept j c (sym (lookup-delete key j n.locks) ∙ g)).1;
  past = λ c h. past c h;
  same = λ k.
      lookup-delete key k held
      ∙ ap (λ found. if key == k then none else found) (i.same k)
      ∙ sym (lookup-delete key k n.locks);
  unique = delete-HasUniqueKeys key held i.unique;
}
  where
    kept :
        (k : Str) (c : ℕ)
        → (if key == k then none else lookup k n.locks) ≡ some c
        → (key ≢ k) × (lookup k n.locks ≡ some c)
    kept k c h = elim (Bool-cases (key == k)) [
      | inl e ↦ let h' = rw e at h in cc
      | inr e ↦ ((λ same. let t = (eq_iff key k).1 same in cc), rw e at h)
    ]

    used :
        (k : Str) (c : ℕ)
        → (if key == k then none else lookup k n.locks) ≡ some c
        → (c < n.next_chan) × ((eqb chan c || is_closed n.closed c) ≡ false)
    used k c h =
        let (differs, there) = kept k c h in
        let (p, q) = i.used k c there in
        elim (Bool-cases (eqb chan c)) [
          | inl e ↦
              let is : chan ≡ c = (eqb_iff chan c).0 e in
              absurd (differs (i.apart key k c (taken ∙ ap some is) there))
          | inr e ↦ (p, rw e q)
        ]

    past : (c : ℕ) → (eqb chan c || is_closed n.closed c) ≡ true → c < n.next_chan
    past c h = elim (Bool-cases (eqb chan c)) [
      | inl e ↦
          let is : chan ≡ c = (eqb_iff chan c).0 e in
          let (p, q) = i.used key chan taken in subst (λ x. x < n.next_chan) is p
      | inr e ↦ i.past c (rw e at h)
    ]

abbrev IsGood : World → Type 0
IsGood w = IsConsistent w.mutexes w.held

Step-IsGood : (v w : World) → Step v w → IsGood v → IsGood w
unfolding try_lock_internal unlock
Step-IsGood v w (locked {key = key} {chan = chan} {n = n} h) i =
    go (lookup key v.mutexes.locks) refl h
  where
    go :
        (found : Option ℕ)
        → lookup key v.mutexes.locks ≡ found
        → try_lock_found key found v.mutexes ≡ (unlock_func key chan, n)
        → IsConsistent n ((key, chan) ∷ v.held)
    go (some c) e k = let p = ap (λ q. q.0) k in cc
    go none e k =
        let is_n = ap (λ q. q.1) k in
        let p = ap (λ q. q.0) k in
        let is_chan : v.mutexes.next_chan ≡ chan = cc in
        subst (λ m. IsConsistent m ((key, chan) ∷ v.held)) is_n
          (subst
            (λ c.
              IsConsistent
                (record v.mutexes {
                  locks = insert key v.mutexes.next_chan v.mutexes.locks;
                  next_chan = suc v.mutexes.next_chan;
                })
                ((key, c) ∷ v.held))
            is_chan (locked-IsConsistent key v.mutexes v.held e i))
Step-IsGood v w (refused key chan {n = n} h) i = go (lookup key v.mutexes.locks) h
  where
    go :
        (found : Option ℕ)
        → try_lock_found key found v.mutexes ≡ (try_again chan, n)
        → IsConsistent n v.held
    go (some c) k = subst (λ m. IsConsistent m v.held) (ap (λ q. q.1) k) i
    go none k = let p = ap (λ q. q.0) k in cc
Step-IsGood v w (unlocked key chan {n = n} taken h) i =
    let taken' : lookup key v.mutexes.locks ≡ some chan = sym (i.same key) ∙ taken in
    let (p, not_closed) = i.used key chan taken' in
    let is : ok (record v.mutexes {
      locks = delete key v.mutexes.locks;
      closed = chan ∷ v.mutexes.closed;
    })
        ≡ ok n =
      rw not_closed at h in
    subst (λ m. IsConsistent m (delete key v.held)) (ok-injective is)
      (unlocked-IsConsistent key chan v.mutexes v.held taken' i)

Reachable-IsGood : (w : World) → Reachable w → IsGood w
Reachable-IsGood w start = start-IsConsistent
Reachable-IsGood w (then_step {v = v} before step) =
    Step-IsGood v w step (Reachable-IsGood v before)

try_lock_iff :
    (key : Str) (n : MutexMap) → ((try_lock key n).0 ≡ true) ↔ (lookup key n.locks ≡ none)
unfolding try_lock try_lock_internal
try_lock_iff key n = elim (Option-cases (lookup key n.locks)) [
  | inl e ↦ rw e ((λ h. refl), (λ h. refl))
  | inr (c, e) ↦ rw e ((λ h. cc), (λ h. cc))
]

-- In every reachable state: at most one holder has a name locked; an attempt to lock a name succeeds
-- exactly if nobody holds it; and the call of its unlock function by the holder does not panic, and
-- lets the next attempt succeed.
pub Reachable-exclusive :
    (w : World)
    → Reachable w
    → HasUniqueKeys w.held
      × ((key : Str) → ((try_lock key w.mutexes).0 ≡ true) ↔ (lookup key w.held ≡ none))
      × ((key : Str) (chan : ℕ)
          → lookup key w.held ≡ some chan
          → (n : MutexMap) × (unlock key chan w.mutexes ≡ ok n) × ((try_lock key n).0 ≡ true))
unfolding unlock
Reachable-exclusive w reachable =
    let i = Reachable-IsGood w reachable in
    (
      i.unique,
      λ key. (
        λ h. i.same key ∙ (try_lock_iff key w.mutexes).0 h,
        λ h. (try_lock_iff key w.mutexes).1 (sym (i.same key) ∙ h),
      ),
      λ key chan taken.
          let (p, not_closed) = i.used key chan (sym (i.same key) ∙ taken) in
          (
            record w.mutexes {
              locks = delete key w.mutexes.locks;
              closed = chan ∷ w.mutexes.closed;
            },
            rw not_closed refl,
            (try_lock_iff key _).1 (lookup-delete key key w.mutexes.locks ∙ rw (eq_refl key) refl),
          ),
    )
