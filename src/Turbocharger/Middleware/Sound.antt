-- ===== src/Turbocharger/Middleware/Sound.antt =====
-- pkg/turbocharger/middleware.go: what holds of the middleware and its goroutines at any time.
use edgerouter.Base.{
  ℕ, suc, ◌<◌, ◌≡◌, ◌≢◌, refl, sym, subst, inl, inr, Str, true, ◌||◌, List, [], ◌∷◌, ◌++◌, Option,
  none, some, Result, ok, err, panic, All, All_imp, Bool-cases, eqb, eqb_iff, arith,
}
use edgerouter.Backends.Handlers.{Url}
use edgerouter.Turbocharger.Ids.{ObjectId, Encodings}
use edgerouter.Turbocharger.Middleware.{
  TcRequest, Discovered, Middleware, new_middleware, loaded, is_in, detach_turbocharger,
  attach_discovered_subtree, PingAnswer,
}
use edgerouter.Turbocharger.Middleware.Traffic.{Compared, with_ping, with_header}
use edgerouter.Turbocharger.Middleware.Changes.{IsAdvertised, Change}
use edgerouter.Turbocharger.Middleware.Laws.{IsServedBy}

abbrev pub Pings : Type 0
Pings = List (Discovered × TcRequest)

-- No two of the running ping checks are for the same discovered subtree.
abbrev pub HasDistinctPings : Pings → Type 0
HasDistinctPings [] = Unit
HasDistinctPings (p ∷ ps) = All (λ q. q.0.serial ≢ p.0.serial) ps × HasDistinctPings ps

pub remove-All :
    {A : Type 0} (P : A → Type 0) (front : List A) (x : A) (back : List A)
    → All P (front ++ x ∷ back)
    → All P (front ++ back)
remove-All P [] x back h = h.1
remove-All P (y ∷ front) x back h = (h.0, remove-All P front x back h.1)

pub at-All :
    {A : Type 0} (P : A → Type 0) (front : List A) (x : A) (back : List A)
    → All P (front ++ x ∷ back)
    → P x
at-All P [] x back h = h.0
at-All P (y ∷ front) x back h = at-All P front x back h.1

pub remove-HasDistinctPings :
    (front : Pings) (x : Discovered × TcRequest) (back : Pings)
    → HasDistinctPings (front ++ x ∷ back)
    → HasDistinctPings (front ++ back)
remove-HasDistinctPings [] x back h = h.1
remove-HasDistinctPings (y ∷ front) x back h =
    (remove-All _ front x back h.0, remove-HasDistinctPings front x back h.1)

module _ {Q : Type 0} (enc : Encodings) (url_string : Url → Str)
    (new_request : Str → Result Q) where
  -- The subtree was advertised, and its number is one of the numbers that were given out.
  abbrev pub Knows : List Str → ℕ → Option Discovered → Type 0
  Knows advertised limit none = Unit
  Knows advertised limit (some d) =
      IsAdvertised enc url_string new_request advertised d.subtree_version × (d.serial < limit)

  abbrev pub Known : List Str → ℕ → List (Option Discovered × TcRequest) → Type 0
  Known advertised limit arrived = All (λ p. Knows advertised limit p.0) arrived

  pub record IsSound (t : Middleware) (arrived : List (Option Discovered × TcRequest))
      (compared : List Compared) (pings : Pings) (advertised : List Str) : Type 0 where
    pub known : Knows advertised t.next_serial (loaded t.discovered)
    pub loads : Known advertised t.next_serial arrived
    pub answers : All (λ c. IsAdvertised enc url_string new_request advertised c.subtree) compared
    pub past : (n : ℕ) → is_in n t.pinged ≡ true → n < t.next_serial
    pub running : All (λ p. is_in p.0.serial t.pinged ≡ true) pings
    pub distinct : HasDistinctPings pings

  pub start-IsSound : IsSound new_middleware [] [] [] []
  start-IsSound = record {
    known = tt;
    loads = tt;
    answers = tt;
    past = λ n h. cc;
    running = tt;
    distinct = tt;
  }

  Knows-weaken :
      (header : Str) (advertised : List Str) (limit : ℕ) (d : Option Discovered)
      → Knows advertised limit d
      → Knows (header ∷ advertised) limit d
  Knows-weaken header advertised limit none k = tt
  Knows-weaken header advertised limit (some d) (a, b) = (inr a, b)

  Knows-later :
      (advertised : List Str) (limit : ℕ) (d : Option Discovered)
      → Knows advertised limit d
      → Knows advertised (suc limit) d
  Knows-later advertised limit none k = tt
  Knows-later advertised limit (some d) (a, b) = (a, omega arith)

  pub IsSound-weaken :
      (t : Middleware) (arrived : List (Option Discovered × TcRequest)) (compared : List Compared)
      (pings : Pings) (advertised : List Str) (header : Str)
      → IsSound t arrived compared pings advertised
      → IsSound t arrived compared pings (header ∷ advertised)
  IsSound-weaken t arrived compared pings advertised header i = record {
    known = Knows-weaken header advertised t.next_serial (loaded t.discovered) i.known;
    loads = All_imp _ _ arrived (λ p k. Knows-weaken header advertised t.next_serial p.0 k) i.loads;
    answers = All_imp _ _ compared (λ c k. inr k) i.answers;
    past = i.past;
    running = i.running;
    distinct = i.distinct;
  }

  -- A change keeps the invariant for the headers that are known then.
  pub Change-IsSound :
      (headers : List Str) (t t' : Middleware) (arrived : List (Option Discovered × TcRequest))
      (compared : List Compared) (pings : Pings)
      → Change enc url_string new_request headers t t'
      → IsSound t arrived compared pings headers
      → IsSound t' arrived compared pings headers
  unfolding detach_turbocharger attach_discovered_subtree
  Change-IsSound headers t t' arrived compared pings (inl same) i =
      subst (λ u. IsSound u arrived compared pings headers) (sym same) i
  Change-IsSound headers t t' arrived compared pings (inr (inl detached)) i =
      subst (λ u. IsSound u arrived compared pings headers) (sym detached)
        (record {
          known = tt;
          loads = i.loads;
          answers = i.answers;
          past = i.past;
          running = i.running;
          distinct = i.distinct;
        })
  Change-IsSound headers t t' arrived compared pings (inr (inr (s, r, now, attached, advertised)))
        i =
      subst (λ u. IsSound u arrived compared pings headers) (sym attached)
        (record {
          known = (advertised, omega arith);
          loads = All_imp _ _ arrived (λ p k. Knows-later headers t.next_serial p.0 k) i.loads;
          answers = i.answers;
          past = λ n h. let p = i.past n h in omega arith;
          running = i.running;
          distinct = i.distinct;
        })

  pub turbocharged-IsSound :
      (found : Option Discovered) (r : TcRequest) (now : ℕ) (t t' : Middleware) (id : ObjectId)
      (path : Option TcRequest) (ping : Option Discovered)
      (arrived : List (Option Discovered × TcRequest)) (compared : List Compared) (pings : Pings)
      (advertised : List Str)
      → IsServedBy found r now t id path ping t'
      → Knows advertised t.next_serial found
      → IsSound t arrived compared pings advertised
      → IsSound t' arrived compared (with_ping ping r pings) advertised
  turbocharged-IsSound found r now t t' id path ping arrived compared pings advertised by knows i =
      elim by.pings [
        | inl (idle, same) ↦
            subst (λ q. IsSound t' arrived compared (with_ping q r pings) advertised) (sym idle)
              (subst (λ u. IsSound u arrived compared pings advertised) (sym same) i)
        | inr (began, fresh, more) ↦
            let d = by.discovered in
            subst (λ q. IsSound t' arrived compared (with_ping q r pings) advertised) (sym began)
              (subst (λ u. IsSound u arrived compared ((d, r) ∷ pings) advertised) (sym more)
                (record {
                  known = i.known;
                  loads = i.loads;
                  answers = i.answers;
                  past = λ n h. past n h;
                  running = (
                    rw ((eqb_iff d.serial d.serial).1 refl) refl,
                    All_imp _ _ pings (λ p k. later p.0.serial k) i.running,
                  );
                  distinct = (
                    All_imp _ _ pings
                        (λ p k same. let k' = subst (λ n. is_in n t.pinged ≡ true) same k in cc)
                        i.running,
                    i.distinct,
                  );
                }))
      ]
    where
      later :
          (n : ℕ)
          → is_in n t.pinged ≡ true
          → (eqb by.discovered.serial n || is_in n t.pinged) ≡ true
      later n k = elim (Bool-cases (eqb by.discovered.serial n)) [
        | inl e ↦ rw e refl
        | inr e ↦ rw e k
      ]

      past : (n : ℕ) → (eqb by.discovered.serial n || is_in n t.pinged) ≡ true → n < t.next_serial
      past n h = elim (Bool-cases (eqb by.discovered.serial n)) [
        | inl e ↦
            let is : by.discovered.serial ≡ n = (eqb_iff by.discovered.serial n).0 e in
            subst (λ k. k < t.next_serial) is
              (subst (Knows advertised t.next_serial) by.is_loaded knows).1
        | inr e ↦ i.past n (rw e at h)
      ]

  pub with_header-IsSound :
      (m : Result Q) (origin : Q → PingAnswer) (t : Middleware)
      (arrived : List (Option Discovered × TcRequest)) (compared : List Compared) (pings : Pings)
      (advertised : List Str)
      → IsSound t arrived compared pings advertised
      → IsSound t arrived compared pings
          (with_header enc url_string new_request m origin advertised)
  with_header-IsSound (ok ping) origin t arrived compared pings advertised i =
      IsSound-weaken t arrived compared pings advertised (origin ping).tc_header i
  with_header-IsSound (err message) origin t arrived compared pings advertised i = i
  with_header-IsSound panic origin t arrived compared pings advertised i = i
