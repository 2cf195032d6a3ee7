-- ===== src/Turbocharger/Middleware/Laws.antt =====
-- pkg/turbocharger/middleware.go: what a request meets that is not passed to the origin.
use edgerouter.Base.{
  ℕ, ◌≡◌, refl, sym, ap, ◌∙◌, ◌⊎◌, inl, inr, Bool, true, false, has_prefix, ◌∷◌, Option, none, some,
  Bool-cases, leb, if◌then◌else◌,
}
use edgerouter.Turbocharger.Ids.{ObjectId}
use edgerouter.Turbocharger.Middleware.{
  TcRequest, Discovered, Middleware, is_in, strip_prefix, validity_check_maybe_trigger_ping,
  serve_turbocharged, serve_discovered, from_manifest, from_origin,
}

-- What a request that is not passed to the origin meets.
pub record IsServedBy (found : Option Discovered) (r : TcRequest) (now : ℕ) (t : Middleware)
    (id : ObjectId) (path : Option TcRequest) (ping : Option Discovered) (t' : Middleware)
    : Type 0 where
  pub discovered : Discovered
  pub is_loaded : found ≡ some discovered
  pub below : has_prefix r.path discovered.subtree_version.prefix ≡ true
  pub manifest : id ≡ discovered.subtree_version.manifest_id
  pub stripped : path ≡ strip_prefix discovered.subtree_version.prefix r
  pub pings :
      ((ping ≡ none) × (t' ≡ t))
      ⊎ ((ping ≡ some discovered)
          × (is_in discovered.serial t.pinged ≡ false)
          × (t' ≡ record t { pinged = discovered.serial ∷ t.pinged }))

pub serve_discovered-IsServedBy :
    (found : Option Discovered) (r : TcRequest) (now : ℕ) (t t' : Middleware) (id : ObjectId)
    (path : Option TcRequest) (ping : Option Discovered)
    → serve_discovered found r now t ≡ ((from_manifest id path, ping), t')
    → IsServedBy found r now t id path ping t'
unfolding validity_check_maybe_trigger_ping
serve_discovered-IsServedBy found r now t t' id path ping h = go found refl h
  where
    starts :
        (d : Discovered)
        → found ≡ some d
        → has_prefix r.path d.subtree_version.prefix ≡ true
        → (b : Bool) (u : Middleware)
        → ((b ≡ false) × (u ≡ t))
          ⊎ ((b ≡ true)
              × (is_in d.serial t.pinged ≡ false)
              × (u ≡ record t { pinged = d.serial ∷ t.pinged }))
        → serve_turbocharged d r (b, u) ≡ ((from_manifest id path, ping), t')
        → IsServedBy found r now t id path ping t'
    starts d e below b u how k =
        let route = ap (λ q. q.0.0) k in
        let is_id : d.subtree_version.manifest_id ≡ id = cc in
        let is_path : strip_prefix d.subtree_version.prefix r ≡ path = cc in
        let is_ping : (if b then some d else none) ≡ ping = ap (λ q. q.0.1) k in
        let is_t : u ≡ t' = ap (λ q. q.1) k in
        record {
          discovered = d;
          is_loaded = e;
          below = below;
          manifest = sym is_id;
          stripped = sym is_path;
          pings = elim how [
            | inl (idle, same) ↦ inl (sym (rw idle at is_ping), sym is_t ∙ same)
            | inr (start, new, more) ↦ inr (sym (rw start at is_ping), new, sym is_t ∙ more)
          ];
        }

    stale :
        (d : Discovered)
        → found ≡ some d
        → has_prefix r.path d.subtree_version.prefix ≡ true
        → serve_turbocharged d r (validity_check_maybe_trigger_ping d now t)
          ≡ ((from_manifest id path, ping), t')
        → IsServedBy found r now t id path ping t'
    stale d e below k = elim (Bool-cases (leb d.valid_until now)) [
      | inr f ↦ starts d e below false t (inl (refl, refl)) (rw f at k)
      | inl f ↦ elim (Bool-cases (is_in d.serial t.pinged)) [
        | inl g ↦ starts d e below false t (inl (refl, refl)) (rw (f, g) at k)
        | inr g ↦
            starts d e below true (record t { pinged = d.serial ∷ t.pinged }) (inr (refl, g, refl))
              (rw (f, g) at k)
      ]
    ]

    go :
        (loaded : Option Discovered)
        → found ≡ loaded
        → serve_discovered loaded r now t ≡ ((from_manifest id path, ping), t')
        → IsServedBy found r now t id path ping t'
    go none e k = let p = ap (λ q. q.0.0) k in cc
    go (some d) e k = elim (Bool-cases (has_prefix r.path d.subtree_version.prefix)) [
      | inl f ↦ stale d e f (rw f at k)
      | inr f ↦ let k' = rw f at k in let p = ap (λ q. q.0.0) k' in cc
    ]

pub serve_discovered-passed :
    (found : Option Discovered) (r : TcRequest) (now : ℕ) (t t' : Middleware)
    → serve_discovered found r now t ≡ ((from_origin, none), t')
    → t' ≡ t
serve_discovered-passed none r now t t' k = sym (ap (λ q. q.1) k)
serve_discovered-passed (some d) r now t t' k =
    elim (Bool-cases (has_prefix r.path d.subtree_version.prefix)) [
      | inl f ↦ let k' = rw f at k in let p = ap (λ q. q.0.0) k' in cc
      | inr f ↦ sym (ap (λ q. q.1) (rw f at k))
    ]
