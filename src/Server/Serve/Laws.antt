-- ===== src/Server/Serve/Laws.antt =====
-- When the server (pkg/erserver/serve.go) passes a request to a backend.
use Prim.Native.Nat.{◌<◌}
use edgerouter.Base.{
  ℕ, zero, suc, ◌<◌, ◌≤◌, Str, bytes, has_prefix, has_prefix-append, ◌≡◌, refl, sym, ap, ◌∙◌, ◌↔◌,
  ◌⊎◌, inl, inr, Bool, true, false, ◌&&◌, not, List, [], ◌∷◌, ◌++◌, Option, none, some, Result, ok,
  err, panic, ◌>>=◌, >>=-eq-ok, >>=-ok-panic, ok-injective, length, arith, Bool-cases,
}
use edgerouter.Server.IpFilter.{Addr, IpRule, ip_allowed}
use edgerouter.Server.Mounts.{Mount, FrontendMatchers, resolve_mount}
use edgerouter.Server.Serve.{
  Request, Answer, passed, slice_from, with_slash, strip_prefix, non_stupid_split_host_port,
  filter_and_pass, serve_mount, serve_hostname, serve_request,
}

slice_from-panic_iff : (n : ℕ) (s : Str) → (slice_from n s ≡ panic) ↔ (length s < n)
unfolding slice_from
slice_from-panic_iff zero s = ((λ h. cc), (λ h. elim h [ ]))
slice_from-panic_iff (suc n) [] = ((λ h. omega arith), (λ h. refl))
slice_from-panic_iff (suc n) (c ∷ s) = ground (arith, slice_from-panic_iff n s)

slice_from-ok :
    (n : ℕ) (s t : Str) → slice_from n s ≡ ok t → (p : Str) × (length p ≡ n) × (s ≡ p ++ t)
unfolding slice_from
slice_from-ok zero s t h = ([], refl, ok-injective h)
slice_from-ok (suc n) [] t h = cc
slice_from-ok (suc n) (c ∷ s) t h =
    let (p, l, e) = slice_from-ok n s t h in (c ∷ p, ap suc l, ap (λ x. c ∷ x) e)

slice_from-long : (n : ℕ) (s : Str) → n ≤ length s → (t : Str) × (slice_from n s ≡ ok t)
unfolding slice_from
slice_from-long zero s le = (s, refl)
slice_from-long (suc n) [] le = absurd (omega arith)
slice_from-long (suc n) (c ∷ s) le = slice_from-long n s (omega arith)

slice_from-le : (n : ℕ) (s t : Str) → slice_from n s ≡ ok t → n ≤ length s
unfolding slice_from
slice_from-le zero s t h = omega arith
slice_from-le (suc n) [] t h = cc
slice_from-le (suc n) (c ∷ s) t h = let le = slice_from-le n s t h in omega arith

module _ {R H : Type 0} (split_host_port : Str → Result Str) (match_string : R → Str → Bool)
    (contains_string : List Str → Str → Bool) (addr_text : Addr → Str)
    (parse_addr_port : Str → Result Addr) (ip_rules : List IpRule) (config : FrontendMatchers R H)
    (r : Request) where
  -- The request resolves to the mount, and neither the redirection to HTTPS nor the IP filter
  -- stops it.
  pub record Admitted (m : Mount H) : Type 0 where
    pub hostname : Str
    pub named : non_stupid_split_host_port split_host_port r.host ≡ ok hostname
    pub resolved : resolve_mount match_string hostname r.path config ≡ some m
    pub secure : (r.tls ≡ true) ⊎ (m.allow_insecure_http ≡ true)
    pub allowed :
        (ip_allowed contains_string addr_text parse_addr_port r.remote_addr m.app.id ip_rules).0
        ≡ true

  serve : Result (Answer H × Option (Mount H))
  serve =
      serve_request split_host_port match_string contains_string addr_text parse_addr_port ip_rules
        config r

  secure_iff :
      (m : Mount H)
      → ((not r.tls && not m.allow_insecure_http) ≡ false)
        ↔ ((r.tls ≡ true) ⊎ (m.allow_insecure_http ≡ true))
  secure_iff m = go r.tls m.allow_insecure_http
    where
      go : (a b : Bool) → ((not a && not b) ≡ false) ↔ ((a ≡ true) ⊎ (b ≡ true))
      go true b = ((λ h. inl refl), (λ h. refl))
      go false true = ((λ h. inr refl), (λ h. refl))
      go false false = ((λ h. cc), elim [ inl e ↦ cc | inr e ↦ cc ])

  Admitted-serve :
      (m : Mount H)
      → Admitted m
      → serve ≡ (strip_prefix m r >>= λ r'. ok (passed m.handler r', some m))
  unfolding serve serve_request
  Admitted-serve m a = rw (a.named, a.resolved, (secure_iff m).1 a.secure, a.allowed) refl

  -- The result of a call that passed the request on.
  Passes : Mount H → H → Request → Option (Mount H) → Type 0
  Passes m h r' o = (o ≡ some m) × (h ≡ m.handler) × (strip_prefix m r ≡ ok r')

  filter-passed :
      (m : Mount H) (p : Bool × Str) (h : H) (r' : Request) (o : Option (Mount H))
      → filter_and_pass split_host_port match_string contains_string addr_text parse_addr_port
          ip_rules m r p
        ≡ ok (passed h r', o)
      → (p.0 ≡ true) × Passes m h r' o
  unfolding Passes
  filter-passed m (true, e) h r' o eq =
      let (r'', s, t) = >>=-eq-ok (strip_prefix m r) _ eq in
      let t' = ok-injective t in
      let answer = ap (λ p. p.0) t' in (refl, (sym (ap (λ p. p.1) t'), cc, s ∙ ap ok (cc)))
  filter-passed m (false, e) h r' o eq = let a = ap (λ p. p.0) (ok-injective eq) in cc

  mount-passed :
      (hostname : Str) (found : Option (Mount H)) (h : H) (r' : Request) (o : Option (Mount H))
      → non_stupid_split_host_port split_host_port r.host ≡ ok hostname
      → resolve_mount match_string hostname r.path config ≡ found
      → serve_mount split_host_port match_string contains_string addr_text parse_addr_port ip_rules
          hostname found r
        ≡ ok (passed h r', o)
      → (m : Mount H) × Admitted m × Passes m h r' o
  mount-passed hostname none h r' o named e eq = let a = ap (λ p. p.0) (ok-injective eq) in cc
  mount-passed hostname (some m) h r' o named e eq =
      elim (Bool-cases (not r.tls && not m.allow_insecure_http)) [
        | inl insecure ↦ let a = ap (λ p. p.0) (ok-injective (rw insecure at eq)) in cc
        | inr secure ↦
            let (allowed, passes) = filter-passed m _ h r' o (rw secure at eq) in
            (
              m,
              record {
                hostname = hostname;
                named = named;
                resolved = e;
                secure = (secure_iff m).0 secure;
                allowed = allowed;
              },
              passes,
            )
      ]

  hostname-passed :
      (named : Result Str) (h : H) (r' : Request) (o : Option (Mount H))
      → non_stupid_split_host_port split_host_port r.host ≡ named
      → serve_hostname split_host_port match_string contains_string addr_text parse_addr_port
          ip_rules named config r
        ≡ ok (passed h r', o)
      → (m : Mount H) × Admitted m × Passes m h r' o
  hostname-passed (ok hostname) h r' o named eq = mount-passed hostname _ h r' o named refl eq
  hostname-passed (err e) h r' o named eq = let a = ap (λ p. p.0) (ok-injective eq) in cc
  hostname-passed panic h r' o named eq = cc

  -- How the path of an admitted request is rewritten: not at all, or the bytes of the prefix are cut
  -- off and the result begins with a slash.
  abbrev pub Rewritten : Mount H → Request → Type 0
  Rewritten m r' =
      ((m.strip_prefix ≡ false) × (r' ≡ r))
      ⊎ ((m.strip_prefix ≡ true)
          × (cut rest : Str) × (length cut ≡ length m.prefix)
          × (r.path ≡ cut ++ rest)
          × (r' ≡ record r { path = with_slash rest })
          × (has_prefix r'.path (bytes "/") ≡ true))

  with_slash-prefix : (s : Str) → has_prefix (with_slash s) (bytes "/") ≡ true
  with_slash-prefix s = elim (Bool-cases (has_prefix s (bytes "/"))) [
    | inl e ↦ rw (e, e)
    | inr e ↦ rw e (has_prefix-append (bytes "/") s)
  ]

  strip_prefix-Rewritten : (m : Mount H) (r' : Request) → strip_prefix m r ≡ ok r' → Rewritten m r'
  unfolding strip_prefix
  strip_prefix-Rewritten m r' h = elim (Bool-cases m.strip_prefix) [
    | inl e ↦
        let (rest, h₁, h₂) = >>=-eq-ok (slice_from (length m.prefix) r.path) _ (rw e at h) in
        let (cut, l, split) = slice_from-ok (length m.prefix) r.path rest h₁ in
        let same = sym (ok-injective h₂) in
        inr (e, cut, rest, l, split, same, rw same (with_slash-prefix rest))
    | inr e ↦ inl (e, sym (ok-injective (rw e at h)))
  ]

  -- A request that reaches a backend has resolved to the mount whose handler it is, has come by TLS
  -- unless the mount allows plain HTTP, has passed the IP filter for the mount's application, and
  -- carries the path as it came or, where the mount strips its prefix, without as many bytes as
  -- the prefix has and with a slash in front.
  pub serve_request-passed :
      (h : H) (r' : Request) (o : Option (Mount H))
      → serve_request split_host_port match_string contains_string addr_text parse_addr_port
          ip_rules config r
        ≡ ok (passed h r', o)
      → (m : Mount H) × Admitted m × (o ≡ some m) × (h ≡ m.handler) × Rewritten m r'
  unfolding serve_request Passes
  serve_request-passed h r' o eq =
      let (m, a, (eo, eh, es)) = hostname-passed _ h r' o refl eq in
      (m, a, eo, eh, strip_prefix-Rewritten m r' es)

  strip_prefix-panic_iff :
      (m : Mount H)
      → (strip_prefix m r ≡ panic) ↔ ((m.strip_prefix ≡ true) × (length r.path < length m.prefix))
  unfolding strip_prefix
  strip_prefix-panic_iff m =
      let (to, from) = slice_from-panic_iff (length m.prefix) r.path in
      elim (Bool-cases m.strip_prefix) [
        | inl e ↦ rw e (
          (λ h. (refl, to (>>=-ok-panic (slice_from (length m.prefix) r.path) _ h))),
          (λ (_, l). rw (from l)),
        )
        | inr e ↦ rw e ((λ h. cc), (λ (f, _). cc))
      ]

  strip_prefix-ok_iff :
      (m : Mount H)
      → ((r' : Request) × (strip_prefix m r ≡ ok r'))
        ↔ ((m.strip_prefix ≡ false) ⊎ (length m.prefix ≤ length r.path))
  unfolding strip_prefix
  strip_prefix-ok_iff m = elim (Bool-cases m.strip_prefix) [
    | inr e ↦ rw e ((λ h. inl refl), (λ h. (r, refl)))
    | inl e ↦ rw e (
      (λ (r', h).
          let (t, sliced, _) = >>=-eq-ok (slice_from (length m.prefix) r.path) _ h in
          inr (slice_from-le (length m.prefix) r.path t sliced)),
      elim [
        | inl f ↦ cc
        | inr le ↦
            let (t, sliced) = slice_from-long (length m.prefix) r.path le in
            (record r { path = with_slash t }, rw sliced refl)
      ],
    )
  ]

  -- For a request that resolves and that neither the redirection nor the IP filter stops: the
  -- handler panics exactly when the mount strips its prefix and the path is shorter than the
  -- prefix, and the request reaches the mount's backend exactly when the mount does not strip it or
  -- the path is at least as long.
  pub serve_request-panic_iff :
      (m : Mount H)
      → Admitted m
      → ((serve_request split_host_port match_string contains_string addr_text parse_addr_port
              ip_rules config r
            ≡ panic)
          ↔ ((m.strip_prefix ≡ true) × (length r.path < length m.prefix)))
        × (((r' : Request) × (serve_request split_host_port match_string contains_string addr_text
                  parse_addr_port ip_rules config r
                ≡ ok (passed m.handler r', some m)))
            ↔ ((m.strip_prefix ≡ false) ⊎ (length m.prefix ≤ length r.path)))
  unfolding serve
  serve_request-panic_iff m a =
      let (to, from) = strip_prefix-panic_iff m in
      let (to', from') = strip_prefix-ok_iff m in
      rw (Admitted-serve m a) (
        ((λ h. to (>>=-ok-panic (strip_prefix m r) _ h)), (λ h. rw (from h))),
        (
          (λ (r', h). let (r'', s, _) = >>=-eq-ok (strip_prefix m r) _ h in to' (r'', s)),
          (λ h. let (r', s) = from' h in (r', rw s refl)),
        ),
      )
