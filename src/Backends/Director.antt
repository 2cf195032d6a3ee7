-- ===== src/Backends/Director.antt =====
-- pkg/erbackend/reverseproxybackend/reverseproxy.go: the rewriting of a request for an origin. The
-- random choice of the origin is an argument; `canonical` is the form in which net/http keeps the
-- keys of headers.
use edgerouter.Base.{
  ℕ, suc, zero, ◌<◌, ◌≡◌, refl, sym, ap, ◌∙◌, subst, ◌⊎◌, inl, inr, Str, ◌==◌, true, false,
  Bool-cases, append-nil, has_suffix, not, ◌&&◌, List, [], ◌∷◌, ◌++◌, Option, none, some, Result,
  ok, ◌>>=◌, >>=-eq-ok, wrap, wrap-eq-ok, ok-injective, deref, length, Each, if◌then◌else◌, arith,
}
use edgerouter.Base.Dict.{Dict, lookup, insert, lookup-insert}
use edgerouter.Config.{BackendOptsReverseProxy}
use edgerouter.Config.Validate.{is_empty}
use edgerouter.Backends.Handlers.{
  Env, Url, ReverseProxy, Handler, reverse_proxy, parse_each, not_empty, parse_origin_urls,
  maybe_wrap_with_cache, new_with_modify_response,
}

-- The outgoing request: its URL's fields, its Host and its headers.
pub record OutRequest : Type 0 where
  pub scheme : Str
  pub url_host : Str
  pub host : Str
  pub path : Str
  pub raw_query : Str
  pub headers : Dict Str

abbrev pub at_index : ℕ → List Url → Option Url
at_index n [] = none
at_index zero (url ∷ urls) = some url
at_index (suc n) (url ∷ urls) = at_index n urls

abbrev pub maybe_index_suffix : BackendOptsReverseProxy → Str → Str
maybe_index_suffix opts path =
    if not (is_empty opts.index_document) && has_suffix path b'/' then opts.index_document else []

abbrev pub set_headers : (Str → Str) → Dict Str → Dict Str → Dict Str
set_headers canonical [] headers = headers
set_headers canonical ((key, value) ∷ forced) headers =
    set_headers canonical forced (insert (canonical key) value headers)

abbrev pub redirected : (Str → Str) → BackendOptsReverseProxy → Url → OutRequest → OutRequest
redirected canonical opts origin req = record {
  scheme = origin.scheme;
  url_host = origin.host;
  host = if not opts.pass_host_header then origin.host else req.host;
  path = origin.path ++ (req.path ++ maybe_index_suffix opts req.path);
  raw_query = if opts.remove_query_string then [] else req.raw_query;
  headers = set_headers canonical opts.headers_to_origin req.headers;
}

-- The closure `Director`, for the index that rand.Intn chose.
unfoldable pub direct : (Str → Str) → ReverseProxy → ℕ → OutRequest → Result OutRequest
direct canonical proxy random_origin_idx req = do
  origin ← deref (at_index random_origin_idx proxy.origin_urls)
  ok (redirected canonical proxy.opts origin req)

at_index-split :
    (n : ℕ) (urls : List Url)
    → n < length urls
    → (front back : List Url) × (url : Url) × (urls ≡ front ++ url ∷ back)
      × (length front ≡ n)
      × (at_index n urls ≡ some url)
at_index-split n [] h = absurd (omega arith)
at_index-split zero (url ∷ urls) h = ([], urls, url, refl, refl, refl)
at_index-split (suc n) (url ∷ urls) h =
    let h' : n < length urls = omega arith in
    let (front, back, found, split, len, e) = at_index-split n urls h' in
    (url ∷ front, back, found, ap (λ l. url ∷ l) split, ap suc len, e)

-- The value that the forced headers give to a key: the last one whose canonical form it is, or else
-- what it had.
abbrev pub forced_value : (Str → Str) → Dict Str → Str → Option Str → Option Str
forced_value canonical [] key before = before
forced_value canonical ((forced, value) ∷ more) key before =
    forced_value canonical more key (if canonical forced == key then some value else before)

-- The outgoing request, for the origin and the options, part by part.
pub record IsDirected (canonical : Str → Str) (opts : BackendOptsReverseProxy) (origin : Url)
    (req out : OutRequest) : Type 0 where
  pub scheme : out.scheme ≡ origin.scheme
  pub url_host : out.url_host ≡ origin.host
  pub host :
      ((opts.pass_host_header ≡ true) × (out.host ≡ req.host))
      ⊎ ((opts.pass_host_header ≡ false) × (out.host ≡ origin.host))
  pub path :
      ((has_suffix req.path b'/' ≡ true)
        × (out.path ≡ origin.path ++ (req.path ++ opts.index_document)))
      ⊎ ((has_suffix req.path b'/' ≡ false) × (out.path ≡ origin.path ++ req.path))
  pub query :
      ((opts.remove_query_string ≡ true) × (out.raw_query ≡ []))
      ⊎ ((opts.remove_query_string ≡ false) × (out.raw_query ≡ req.raw_query))
  pub headers :
      (key : Str)
      → lookup key out.headers
        ≡ forced_value canonical opts.headers_to_origin key (lookup key req.headers)

lookup-set_headers :
    (canonical : Str → Str) (forced headers : Dict Str) (key : Str)
    → lookup key (set_headers canonical forced headers)
      ≡ forced_value canonical forced key (lookup key headers)
lookup-set_headers canonical [] headers key = refl
lookup-set_headers canonical ((k, value) ∷ forced) headers key =
    lookup-set_headers canonical forced (insert (canonical k) value headers) key
    ∙ ap (forced_value canonical forced key) (lookup-insert (canonical k) key value headers)

redirected-IsDirected :
    (canonical : Str → Str) (opts : BackendOptsReverseProxy) (origin : Url) (req : OutRequest)
    → IsDirected canonical opts origin req (redirected canonical opts origin req)
redirected-IsDirected canonical opts origin req = record {
  scheme = refl;
  url_host = refl;
  host = elim (Bool-cases opts.pass_host_header) [
    | inl e ↦ inl (e, rw e refl)
    | inr e ↦ inr (e, rw e refl)
  ];
  path = elim (Bool-cases (has_suffix req.path b'/')) [
    | inl e ↦ inl (e, ap (λ t. origin.path ++ (req.path ++ t)) (slash opts.index_document e))
    | inr e ↦ inr (e, ap (λ t. origin.path ++ t) (no_slash opts.index_document e))
  ];
  query = elim (Bool-cases opts.remove_query_string) [
    | inl e ↦ inl (e, rw e refl)
    | inr e ↦ inr (e, rw e refl)
  ];
  headers = λ key. lookup-set_headers canonical opts.headers_to_origin req.headers key;
}
  where
    slash :
        (document : Str)
        → has_suffix req.path b'/' ≡ true
        → (if not (is_empty document) && has_suffix req.path b'/' then document else []) ≡ document
    slash [] e = refl
    slash (c ∷ document) e = rw e refl

    no_slash :
        (document : Str)
        → has_suffix req.path b'/' ≡ false
        → req.path ++ (if not (is_empty document) && has_suffix req.path b'/' then document else [])
          ≡ req.path
    no_slash [] e = append-nil req.path
    no_slash (c ∷ document) e = rw e (append-nil req.path)

module _ (env : Env) where
  parse_each-Each :
      (strs : List Str) (urls : List Url)
      → parse_each env strs ≡ ok urls
      → Each (λ s url. env.parse_url s ≡ ok url) strs urls
  parse_each-Each [] [] h = tt
  parse_each-Each [] (url ∷ urls) h = let e = ok-injective h in cc
  parse_each-Each (s ∷ strs) out h =
      let (url, p, h₁) = >>=-eq-ok (env.parse_url s) _ h in
      let (urls, ps, h₂) = >>=-eq-ok (parse_each env strs) _ h₁ in
      subst (Each (λ s url. env.parse_url s ≡ ok url) (s ∷ strs)) (ok-injective h₂)
        (p, parse_each-Each strs urls ps)

  not_empty-ok :
      (urls out : List Url) → not_empty env urls ≡ ok out → (urls ≡ out) × (0 < length out)
  not_empty-ok [] out h = cc
  not_empty-ok (url ∷ urls) out h =
      (ok-injective h, subst (λ l. 0 < length l) (ok-injective h) (omega arith))

  -- A reverse proxy that is made has the parsed URL of each of its origins, at least one; and whichever
  -- index of them is chosen, its director does not panic and the outgoing request goes to the origin
  -- at that index: its scheme and host are the origin's, the Host header is the origin's unless the
  -- options pass on the client's, the path is the origin's path followed by the client's, with the
  -- index document behind it if one is configured and the path ends with a slash, the query is kept
  -- unless the options remove it, and each header has its last forced value or else the client's.
  pub new_with_modify_response-direct :
      (canonical : Str → Str) (app_id : Str) (opts : BackendOptsReverseProxy) (page : Option Str)
      (h : Handler)
      → new_with_modify_response env app_id opts page ≡ ok h
      → (proxy : ReverseProxy) × (h ≡ reverse_proxy proxy)
        × Each (λ s url. env.parse_url s ≡ ok url) opts.origins proxy.origin_urls
        × (0 < length proxy.origin_urls)
        × ((n : ℕ) (req : OutRequest)
            → n < length proxy.origin_urls
            → (front back : List Url) × (origin : Url) × (out : OutRequest) × (proxy.origin_urls
                ≡ front ++ origin ∷ back)
              × (length front ≡ n)
              × (direct canonical proxy n req ≡ ok out)
              × IsDirected canonical opts origin req out)
  unfolding new_with_modify_response parse_origin_urls direct
  new_with_modify_response-direct canonical app_id opts page h made =
      let (urls, w, h₁) = >>=-eq-ok (wrap _ (parse_origin_urls env opts.origins)) _ made in
      let (location, l, h₂) = >>=-eq-ok (maybe_wrap_with_cache env app_id opts.caching) _ h₁ in
      let parsed = wrap-eq-ok _ (parse_origin_urls env opts.origins) w in
      let (each, p, ne) = >>=-eq-ok (parse_each env opts.origins) _ parsed in
      let (same, nonempty) = not_empty-ok each urls ne in
      (
        record { origin_urls = urls; cache_location = location; opts = opts; not_found_url = page },
        sym (ok-injective h₂),
        subst (Each (λ s url. env.parse_url s ≡ ok url) opts.origins) same
            (parse_each-Each opts.origins each p),
        nonempty,
        λ n req lt.
            let (front, back, origin, split, len, e) = at_index-split n urls lt in
            (
              front,
              back,
              origin,
              redirected canonical opts origin req,
              split,
              len,
              rw e refl,
              redirected-IsDirected canonical opts origin req,
            ),
      )
