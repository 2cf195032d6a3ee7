-- ===== src/Turbocharger/Middleware/Refresh.antt =====
-- pkg/turbocharger/middleware.go: how a discovered subtree is renewed, and how it ends.
use edgerouter.Base.{
  ℕ, ◌<◌, ◌+◌, ◌≡◌, ◌≢◌, refl, sym, ap, ◌∙◌, subst, ◌⊎◌, inl, inr, Str, true, false, has_prefix,
  List, [], ◌∷◌, ◌++◌, All, none, some, Result, ok, panic, Bool-cases, eqb_iff, leb, arith,
}
use edgerouter.Config.Validate.{is_empty}
use edgerouter.Backends.Handlers.{Url}
use edgerouter.Turbocharger.Ids.{Encodings}
use edgerouter.Turbocharger.Header.{Subtree, equal, parse_tc_header}
use edgerouter.Turbocharger.Middleware.{
  TcRequest, Discovered, Slot, never_stored, stored_nil, stored, loaded, serve_discovered,
  detach_turbocharger, Middleware, is_in, strip_prefix, attach_discovered_subtree,
  validity_check_maybe_trigger_ping, validity_period, serve_http, from_manifest, from_origin,
  PingAnswer, ping_check, ping_and_detach, check_for_turbocharger_advertisement,
  compare_advertisement,
}
use edgerouter.Turbocharger.Middleware.Traffic.{
  Traffic, Step, time_passed, arrives, turbocharged, passed, answered, not_advertised,
  compared_ended, ping_ended, Steps, done, next,
}
use edgerouter.Turbocharger.Middleware.Laws.{serve_discovered-passed}
use edgerouter.Turbocharger.Middleware.Sound.{remove-All, at-All}

-- The answer keeps the subtree: status 200 and a header that can be read, to this subtree.
pub record IsRenewal (enc : Encodings) (answer : PingAnswer) (s : Subtree) : Type 0 where
  pub is_ok : answer.code ≡ 200
  pub header : is_empty answer.tc_header ≡ false
  pub parsed : parse_tc_header enc answer.tc_header ≡ ok s

serve_http-stored :
    (r : TcRequest) (now : ℕ) (t : Middleware) (d : Discovered)
    → t.discovered ≡ stored d
    → has_prefix r.path d.subtree_version.prefix ≡ true
    → (serve_http r now t).0.0
      ≡ from_manifest d.subtree_version.manifest_id (strip_prefix d.subtree_version.prefix r)
unfolding serve_http
serve_http-stored r now t d e below = rw (e, below) refl

serve_http-fresh :
    (r : TcRequest) (now : ℕ) (t : Middleware) (d : Discovered)
    → t.discovered ≡ stored d
    → (leb d.valid_until now ≡ false) ⊎ (is_in d.serial t.pinged ≡ true)
    → (serve_http r now t).0.1 ≡ none
unfolding serve_http validity_check_maybe_trigger_ping
serve_http-fresh r now t d e (inl h) =
    elim (Bool-cases (has_prefix r.path d.subtree_version.prefix)) [
      | inl f ↦ rw (e, f, h) refl
      | inr f ↦ rw (e, f) refl
    ]
serve_http-fresh r now t d e (inr h) =
    elim (Bool-cases (has_prefix r.path d.subtree_version.prefix)) [
      | inl f ↦ elim (Bool-cases (leb d.valid_until now)) [
        | inl g ↦ rw (e, f, g, h) refl
        | inr g ↦ rw (e, f, g) refl
      ]
      | inr f ↦ rw (e, f) refl
    ]

module _ {Q : Type 0} (enc : Encodings) (url_string : Url → Str)
    (new_request : Str → Result Q) where
  ping_and_detach-renewal :
      (d : Discovered) (origin : Q → PingAnswer) (r : TcRequest) (now : ℕ) (t : Middleware)
      (ping : Q) (s : Subtree)
      → new_request d.ping_url ≡ ok ping
      → IsRenewal enc (origin ping) s
      → ping_and_detach enc url_string new_request d origin r now t
        ≡ (ok tt, (attach_discovered_subtree enc url_string s r now t).1)
  unfolding ping_and_detach ping_check
  ping_and_detach-renewal d origin r now t ping s sent renewal =
      rw (sent, renewal.is_ok, renewal.header, renewal.parsed) refl

  -- A request below the prefix of a subtree that is no longer valid, and for which no ping check was
  -- started, is served from the subtree's manifest and starts one; by the middleware that it leaves, a
  -- request starts no other one. If the ping can be sent and is answered with status 200 and the
  -- header of a subtree, then the check succeeds, whenever it ends and whatever the middleware is then;
  -- and by the middleware that it leaves, requests below that subtree's prefix are served from its
  -- manifest, and a request within five seconds starts no ping check.
  pub serve_http-renews :
      (r : TcRequest) (now : ℕ) (t : Middleware) (d : Discovered) (origin : Q → PingAnswer)
      (ping : Q) (s : Subtree)
      → t.discovered ≡ stored d
      → leb d.valid_until now ≡ true
      → is_in d.serial t.pinged ≡ false
      → has_prefix r.path d.subtree_version.prefix ≡ true
      → new_request d.ping_url ≡ ok ping
      → IsRenewal enc (origin ping) s
      → (u : Middleware) × (serve_http r now t ≡ (
        (
          from_manifest d.subtree_version.manifest_id (strip_prefix d.subtree_version.prefix r),
          some d,
        ),
        u,
      ))
        × ((other : TcRequest) (later : ℕ) → (serve_http other later u).0.1 ≡ none)
        × ((ended : ℕ) (before : Middleware)
            → (v : Middleware) × (ping_and_detach enc url_string new_request d origin r ended before
                ≡ (ok tt, v))
              × ((other : TcRequest) (later : ℕ)
                  → has_prefix other.path s.prefix ≡ true
                  → ((serve_http other later v).0.0
                      ≡ from_manifest s.manifest_id (strip_prefix s.prefix other))
                    × (later < ended + validity_period → (serve_http other later v).0.1 ≡ none)))
  unfolding serve_http validity_check_maybe_trigger_ping attach_discovered_subtree
  serve_http-renews r now t d origin ping s e stale fresh below sent renewal =
      let u : Middleware = record t { pinged = d.serial ∷ t.pinged } in
      (
        u,
        rw (e, below, stale, fresh) refl,
        λ other later.
            serve_http-fresh other later u d e (inr (rw ((eqb_iff d.serial d.serial).1 refl) refl)),
        λ ended before. (
          (attach_discovered_subtree enc url_string s r ended before).1,
          ping_and_detach-renewal d origin r ended before ping s sent renewal,
          λ other later under. (
            serve_http-stored other later _
                (attach_discovered_subtree enc url_string s r ended before).0 refl under,
            λ soon.
                serve_http-fresh other later _
                  (attach_discovered_subtree enc url_string s r ended before).0 refl
                  (inl (ground arith)),
          ),
        ),
      )

  -- Nothing is left that could attach a subtree: a goroutine that loaded one, an answer that found
  -- that none was ever stored, or a ping check.
  abbrev IsDetached : Traffic → Type 0
  IsDetached w =
      (w.middleware.discovered ≡ stored_nil)
      × All (λ p. p.0 ≡ none) w.arrived
      × All (λ c. c.existing ≢ never_stored) w.compared
      × (w.pings ≡ [])

  serve_http-detached :
      (r : TcRequest) (now : ℕ) (t : Middleware)
      → t.discovered ≡ stored_nil
      → serve_http r now t ≡ ((from_origin, none), t)
  unfolding serve_http
  serve_http-detached r now t e = rw e refl

  compare-detached :
      (s : Subtree) (r : TcRequest) (now : ℕ) (slot : Slot) (t t' : Middleware)
      (u : Result (Unit {0}))
      → t.discovered ≡ stored_nil
      → slot ≢ never_stored
      → compare_advertisement enc url_string s r now slot t ≡ (u, t')
      → t'.discovered ≡ stored_nil
  unfolding detach_turbocharger
  compare-detached s r now never_stored t t' u e some_stored h = absurd (some_stored refl)
  compare-detached s r now stored_nil t t' u e some_stored h = ap (λ q. q.1.discovered) (sym h) ∙ e
  compare-detached s r now (stored d) t t' u e some_stored h =
      elim (Bool-cases (equal d.subtree_version s)) [
        | inl same ↦ ap (λ q. q.1.discovered) (sym (rw same at h)) ∙ e
        | inr differs ↦ ap (λ q. q.1.discovered) (sym (rw differs at h))
      ]

  nonempty : {A : Type 0} (front : List A) (x : A) (back : List A) → front ++ x ∷ back ≢ []
  nonempty [] x back h = cc
  nonempty (y ∷ front) x back h = cc

  Step-IsDetached :
      (v w : Traffic) → Step enc url_string new_request v w → IsDetached v → IsDetached w
  Step-IsDetached v w (time_passed le) i = i
  Step-IsDetached v w (arrives r) (e, loads, answers, idle) =
      (e, (ap (λ slot. loaded slot) e, loads), answers, idle)
  Step-IsDetached v w (turbocharged front back d r id path ping {t = t} at h)
        (e, loads, answers, idle) =
      let is : d ≡ none = at-All _ front (d, r) back (subst (All _) at loads) in
      let k : serve_discovered none r v.now v.middleware ≡ ((from_manifest id path, ping), t) =
        rw is at h in
      let p = ap (λ q. q.0.0) k in cc
  Step-IsDetached v w (passed front back d r {t = t} at h) (e, loads, answers, idle) = (
    ap (λ u. u.discovered) (serve_discovered-passed d r v.now v.middleware t h) ∙ e,
    remove-All _ front (d, r) back (subst (All _) at loads),
    answers,
    idle,
  )
  Step-IsDetached v w (answered front back r header s at given parsed) (e, loads, answers, idle) =
      (e, loads, ((λ never. let no_subtree = sym e ∙ never in cc), answers), idle)
  Step-IsDetached v w (not_advertised front back r header at why) i = i
  Step-IsDetached v w (compared_ended front back c made u {t = t} at le h)
        (e, loads, answers, idle) =
      let answers' = subst (All _) at answers in
      (
        compare-detached c.subtree c.request made c.existing v.middleware t u e
            (at-All _ front c back answers') h,
        loads,
        remove-All _ front c back answers',
        idle,
      )
  Step-IsDetached v w (ping_ended front back d r origin made {t = t} at le h)
        (e, loads, answers, idle) =
      absurd (nonempty front (d, r) back (sym at ∙ idle))

  Steps-IsDetached :
      (v w : Traffic) → Steps enc url_string new_request v w → IsDetached v → IsDetached w
  Steps-IsDetached v w done i = i
  Steps-IsDetached v w (next {w = u} step steps) i =
      Steps-IsDetached u w steps (Step-IsDetached v u step i)

  -- Once a subtree is detached, and no request that loaded one before is still to be handled, no
  -- answer is still compared that found none ever stored, and no ping check runs, the middleware stays
  -- without a subtree in every run: every request that is not yet handled goes to the origin, so does
  -- a new one, and an answer with a header that can be read does not attach a subtree again but
  -- panics.
  pub Steps-detached :
      (v w : Traffic)
      → v.middleware.discovered ≡ stored_nil
      → All (λ p. p.0 ≡ none) v.arrived
      → All (λ c. c.existing ≢ never_stored) v.compared
      → v.pings ≡ []
      → Steps enc url_string new_request v w
      → (r : TcRequest)
      → All (λ p. p.0 ≡ none) w.arrived
        × (serve_http r w.now w.middleware ≡ ((from_origin, none), w.middleware))
        × ((header : Str) (s : Subtree)
            → is_empty header ≡ false
            → parse_tc_header enc header ≡ ok s
            → check_for_turbocharger_advertisement enc url_string header r w.now w.middleware
              ≡ (panic, w.middleware))
  unfolding check_for_turbocharger_advertisement
  Steps-detached v w e loads answers idle steps r =
      let (nil, loads', answers', idle') = Steps-IsDetached v w steps (e, loads, answers, idle) in
      (
        loads',
        serve_http-detached r w.now w.middleware nil,
        λ header s given parsed. rw (given, parsed, nil) refl,
      )
