-- ===== src/Backends/Factory/Cache.antt =====
-- pkg/erserver/backendfactory.go: what the cache of backends returns.
use edgerouter.Base.{
  ◌≡◌, ◌≢◌, refl, sym, ap, ◌∙◌, subst, Str, ◌==◌, eq_iff, eq_refl, Option, none, some, Result, ok,
  err, panic, and_then-eq-ok, ok-injective, All, ◌⊎◌, Bool-cases, arith, inl, inr,
}
use edgerouter.Base.Dict.{lookup, insert, lookup-insert}
use edgerouter.Base.Dict.Keys.{insert-All, lookup-All}
use edgerouter.Config.{Backend}
use edgerouter.Backends.Handlers.{Env, Handler, Singleton}
use edgerouter.Backends.Factory.{
  CacheEntry, FactoryState, same_digest, keep_made, find_cached, made_or_cached, make_backend,
  make_backend_internal,
}

module _ (env : Env) (default_server : Str) (marshal : Backend → Result Str) where
  -- The handler was made for the application with the identity, from a configuration with the digest.
  abbrev pub IsMadeFor : Str → Str → Handler → Type 0
  IsMadeFor app_id digest h =
      (conf : Backend) × (before after : Singleton) × (marshal conf ≡ ok digest)
      × (make_backend_internal env default_server app_id conf before ≡ (ok h, after))

  -- Each entry of the cache holds a handler that was made for its application and its digest.
  abbrev pub IsSound : FactoryState → Type 0
  IsSound s = All (λ e. IsMadeFor e.0 e.1.config_digest e.1.handler) s.per_app_id

  -- The handler comes from the cache, or it is made and put into the cache.
  abbrev Outcome : Str → Backend → Str → FactoryState → Handler → FactoryState → Type 0
  Outcome app_id conf digest s h s' =
      ((e : CacheEntry) × (lookup app_id s.per_app_id ≡ some e)
        × (e.config_digest ≡ digest)
        × (e.handler ≡ h)
        × (s' ≡ s))
      ⊎ ((make_backend_internal env default_server app_id conf s.singleton ≡ (ok h, s'.singleton))
          × (s'.per_app_id
              ≡ insert app_id (record { handler = h; config_digest = digest }) s.per_app_id))

  made-Outcome :
      (app_id : Str) (conf : Backend) (digest : Str) (s : FactoryState) (h : Handler)
      (s' : FactoryState) (made : Result Handler × Singleton)
      → make_backend_internal env default_server app_id conf s.singleton ≡ made
      → keep_made app_id digest s made ≡ (ok h, s')
      → Outcome app_id conf digest s h s'
  made-Outcome app_id conf digest s h s' (ok made, after) e k =
      let same_h : made ≡ h = ok-injective (ap (λ p. p.0) k) in
      let same_s = ap (λ p. p.1) k in
      inr (
        rw (e, same_h, ap (λ t. t.singleton) same_s) refl,
        sym (ap (λ t. t.per_app_id) same_s)
            ∙ ap (λ x. insert app_id (record { handler = x; config_digest = digest }) s.per_app_id)
                same_h,
      )
  made-Outcome app_id conf digest s h s' (err m, after) e k = let p = ap (λ p. p.0) k in cc
  made-Outcome app_id conf digest s h s' (panic, after) e k = let p = ap (λ p. p.0) k in cc

  cached-Outcome :
      (app_id : Str) (conf : Backend) (digest : Str) (s : FactoryState) (h : Handler)
      (s' : FactoryState) (found : Option CacheEntry)
      → lookup app_id s.per_app_id ≡ found
      → made_or_cached env default_server marshal app_id conf digest s (same_digest digest found)
        ≡ (ok h, s')
      → Outcome app_id conf digest s h s'
  cached-Outcome app_id conf digest s h s' none e k =
      made-Outcome app_id conf digest s h s' _ refl k
  cached-Outcome app_id conf digest s h s' (some c) e k =
      elim (Bool-cases (digest == c.config_digest)) [
        | inl t ↦
            let k' = rw t at k in
            inl (
              c,
              e,
              sym ((eq_iff digest c.config_digest).0 t),
              ok-injective (ap (λ p. p.0) k'),
              sym (ap (λ p. p.1) k'),
            )
        | inr t ↦ made-Outcome app_id conf digest s h s' _ refl (rw t at k)
      ]

  make_backend-Outcome :
      (app_id : Str) (conf : Backend) (s : FactoryState) (h : Handler) (s' : FactoryState)
      → make_backend env default_server marshal app_id conf s ≡ (ok h, s')
      → (digest : Str) × (marshal conf ≡ ok digest) × Outcome app_id conf digest s h s'
  unfolding make_backend find_cached
  make_backend-Outcome app_id conf s h s' k =
      let (digest, t, m, rest) = and_then-eq-ok (marshal conf, s) _ k in
      let same : s ≡ t = ap (λ p. p.1) m in
      (
        digest,
        ap (λ p. p.0) m,
        cached-Outcome app_id conf digest s h s' _ refl (
            subst
              (λ u.
                made_or_cached env default_server marshal app_id conf digest u
                  (same_digest digest (lookup app_id u.per_app_id))
                ≡ (ok h, s'))
              (sym same) rest),
      )

  -- When a backend was had, it is had again without being made again, as long as the cache's entry for
  -- the application stays what it was; and the entries of the other applications are kept.
  pub make_backend-again :
      (app_id : Str) (conf : Backend) (s : FactoryState) (h : Handler) (s' : FactoryState)
      → make_backend env default_server marshal app_id conf s ≡ (ok h, s')
      → ((t : FactoryState)
          → lookup app_id t.per_app_id ≡ lookup app_id s'.per_app_id
          → make_backend env default_server marshal app_id conf t ≡ (ok h, t))
        × ((other : Str) → other ≢ app_id → lookup other s'.per_app_id ≡ lookup other s.per_app_id)
  unfolding make_backend find_cached
  make_backend-again app_id conf s h s' k =
      let (digest, m, outcome) = make_backend-Outcome app_id conf s h s' k in
      elim outcome [
        | inl (e, there, same_d, same_h, same_s) ↦ (
          λ t there'. rw (m, there', same_s, there, same_d, eq_refl digest, same_h) refl,
          λ other differs. ap (λ u. lookup other u.per_app_id) same_s,
        )
        | inr (made, put) ↦ (
          λ t there'.
              rw
                (
                  m,
                  there',
                  put,
                  lookup-insert app_id app_id _ s.per_app_id,
                  eq_refl app_id,
                  eq_refl digest,
                )
                refl,
          λ other differs. kept _ other differs put,
        )
      ]
    where
      kept :
          (entry : CacheEntry) (other : Str)
          → other ≢ app_id
          → s'.per_app_id ≡ insert app_id entry s.per_app_id
          → lookup other s'.per_app_id ≡ lookup other s.per_app_id
      kept entry other differs put =
          rw (put, lookup-insert app_id other entry s.per_app_id)
            (ground (arith, eq_iff app_id other))

  -- From a sound cache a backend that is had was made for its application, from a configuration with
  -- the digest of the one asked for; and the cache is sound again.
  pub make_backend-IsSound :
      (app_id : Str) (conf : Backend) (s : FactoryState) (h : Handler) (s' : FactoryState)
      → IsSound s
      → make_backend env default_server marshal app_id conf s ≡ (ok h, s')
      → IsSound s' × (digest : Str) × (marshal conf ≡ ok digest) × IsMadeFor app_id digest h
  make_backend-IsSound app_id conf s h s' sound k =
      let (digest, m, outcome) = make_backend-Outcome app_id conf s h s' k in
      elim outcome [
        | inl (e, there, same_d, same_h, same_s) ↦
            let made =
              lookup-All (λ e. IsMadeFor e.0 e.1.config_digest e.1.handler) app_id e s.per_app_id
                sound there in
            (
              subst IsSound (sym same_s) sound,
              digest,
              m,
              subst (λ d. IsMadeFor app_id d h) same_d
                  (subst (IsMadeFor app_id e.config_digest) same_h made),
            )
        | inr (made, put) ↦
            let is_made : IsMadeFor app_id digest h = (conf, s.singleton, s'.singleton, m, made) in
            (
              subst (All (λ e. IsMadeFor e.0 e.1.config_digest e.1.handler)) (sym put) (
                  insert-All (λ e. IsMadeFor e.0 e.1.config_digest e.1.handler) app_id _
                    s.per_app_id is_made sound),
              digest,
              m,
              is_made,
            )
      ]
