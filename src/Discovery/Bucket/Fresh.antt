-- ===== src/Discovery/Bucket/Fresh.antt =====
-- pkg/erdiscovery/s3discovery/s3discovery.go: reading from the cache gives what reading the bucket
-- would give.
use edgerouter.Base.{
  ℕ, zero, suc, has_prefix, if◌then◌else◌, ◌≡◌, ◌≢◌, refl, sym, ap, ◌∙◌, subst, ◌⊎◌, inl, inr, Str,
  bytes, ◌==◌, eq_iff, List, [], ◌∷◌, ◌++◌, map, append-nil, append_assoc, Result, ok, err, panic,
  and_then-eq-ok, ok-injective, All, HasNone, Each, Bool-cases,
}
use edgerouter.Config.{Application}
use edgerouter.Discovery.Bucket.{
  S3Object, Bucket, S3Discovery, etag_lines, s3_error, read_objects, keep_read, read_listed,
  read_bucket,
}

-- The tag is written as one line.
abbrev pub IsLine : S3Object → Type 0
IsLine object = HasNone b'\n' object.etag

-- What S3 lists for a prefix: the first thousand of the objects whose keys start with it, in the order
-- of the keys, in which the contents are given.
abbrev pub with_prefix : Str → List S3Object → List S3Object
with_prefix prefix [] = []
with_prefix prefix (object ∷ objects) =
    if has_prefix object.key prefix
    then object ∷ with_prefix prefix objects
    else with_prefix prefix objects

abbrev pub first : {A : Type 0} → ℕ → List A → List A
first zero xs = []
first (suc n) [] = []
first (suc n) (x ∷ xs) = x ∷ first n xs

abbrev pub page_size : ℕ
page_size = 1000

abbrev pub first_page : Str → List S3Object → List S3Object
first_page prefix objects = first page_size (with_prefix prefix objects)

All-first : {A : Type 0} (P : A → Type 0) (n : ℕ) (xs : List A) → All P xs → All P (first n xs)
All-first P zero xs a = tt
All-first P (suc n) [] a = tt
All-first P (suc n) (x ∷ xs) a = (a.0, All-first P n xs a.1)

All-with_prefix :
    (P : S3Object → Type 0) (prefix : Str) (objects : List S3Object)
    → All P objects
    → All P (with_prefix prefix objects)
All-with_prefix P prefix [] a = tt
All-with_prefix P prefix (object ∷ objects) a = elim (Bool-cases (has_prefix object.key prefix)) [
  | inl e ↦ rw e (a.0, All-with_prefix P prefix objects a.1)
  | inr e ↦ rw e (All-with_prefix P prefix objects a.1)
]

module _ {B : Type 0} (client : Bucket B) (sha1 : Str → Str) (decode : Str → Result Application)
    (marshal : Application → Result Str) (body_of : Str → Str) where
  -- What is documented of S3: a listing for a prefix is its first page, the entity tag of an object
  -- stands for its content and is one line, and neither listing nor reading changes the bucket.
  -- `body_of` is the content that a tag stands for, and `contents` all objects of a bucket.
  pub record IsTagged (contents : B → List S3Object) : Type 0 where
    pub lists :
        (prefix : Str) (b b' : B) (objects : List S3Object)
        → client.list_objects prefix b ≡ (ok objects, b')
        → (objects ≡ first_page prefix (contents b)) × (b' ≡ b)
    pub lines : (b : B) → All IsLine (contents b)
    pub gets :
        (b b' : B) (key body : Str)
        → client.get_object key b ≡ (ok body, b')
        → (b' ≡ b) × All (λ object. object.key ≡ key → body ≡ body_of object.etag) (contents b)

  -- The applications of the objects with these tags, in order.
  abbrev pub AreDecoded : List S3Object → List Application → Type 0
  AreDecoded = Each (λ object app. decode (body_of object.etag) ≡ ok app)

  module _ (contents : B → List S3Object) (tagged : IsTagged contents) where
    -- The objects that the bucket lists below "discovery/".
    abbrev pub listed : B → List S3Object
    listed b = first_page (bytes "discovery/") (contents b)

    listed-All : (P : S3Object → Type 0) (b : B) → All P (contents b) → All P (listed b)
    listed-All P b a =
        All-first P page_size (with_prefix (bytes "discovery/") (contents b))
          (All-with_prefix P (bytes "discovery/") (contents b) a)

    listed-IsLine : (b : B) → All IsLine (listed b)
    listed-IsLine b = listed-All IsLine b (tagged.lines b)

    read_objects-AreDecoded :
        (before : List S3Object) (apps : List Application) (objects : List S3Object) (b b' : B)
        (out : List Application)
        → listed b ≡ before ++ objects
        → read_objects client sha1 decode marshal apps objects b ≡ (ok out, b')
        → (b' ≡ b) × ((more : List Application) × (out ≡ apps ++ more) × AreDecoded objects more)
    unfolding read_objects
    read_objects-AreDecoded before apps [] b b' out is h = (
      sym (ap (λ p. p.1) h),
      ([], sym (ok-injective (ap (λ p. p.0) h)) ∙ sym (append-nil apps), tt),
    )
    read_objects-AreDecoded before apps (object ∷ objects) b b' out is h =
        let (body, b₁, got, h₁) = and_then-eq-ok (client.get_object object.key b) _ h in
        let (app, b₂, decoded, h₂) = and_then-eq-ok (decode body, b₁) _ h₁ in
        let (same₁, bodies) = tagged.gets b b₁ object.key body got in
        let same₂ : b₂ ≡ b = sym (ap (λ p. p.1) decoded) ∙ same₁ in
        let is_body : body ≡ body_of object.etag =
          at_object before (subst (All _) is (listed-All _ b bodies)) in
        let (same₃, (more, e, each)) =
          read_objects-AreDecoded (before ++ object ∷ []) (apps ++ app ∷ []) objects b₂ b' out
            (ap listed same₂ ∙ is ∙ sym (append_assoc before (object ∷ []) objects)) h₂ in
        (
          same₃ ∙ same₂,
          (
            app ∷ more,
            e ∙ append_assoc apps (app ∷ []) more,
            (ap decode (sym is_body) ∙ ap (λ p. p.0) decoded, each),
          ),
        )
      where
        at_object :
            {body : Str} (front : List S3Object)
            → All (λ o. o.key ≡ object.key → body ≡ body_of o.etag) (front ++ object ∷ objects)
            → body ≡ body_of object.etag
        at_object [] a = a.0 refl
        at_object (o ∷ front) a = at_object front a.1

    -- The cache is empty, or it holds the applications of a listing with the cached hash.
    abbrev pub IsFresh : S3Discovery B → Type 0
    IsFresh d =
        (d.cached_read_hash ≡ [])
        ⊎ ((objects : List S3Object) × All IsLine objects
            × (d.cached_read_hash ≡ sha1 (etag_lines objects))
            × AreDecoded objects d.cached_read)

    -- If the digest has no collisions and is never empty, a successful read gives, for the objects
    -- that the bucket lists below "discovery/" at that time, at most a thousand, the applications that their contents decode to, in order:
    -- also when they are taken from the cache. And the cache stays so, also after an error.
    pub read_bucket-IsFresh :
        (d d' : S3Discovery B) (result : Result (List Application))
        → ((s : Str) → sha1 s ≢ [])
        → ((xs ys : List S3Object)
            → All IsLine xs
            → All IsLine ys
            → sha1 (etag_lines xs) ≡ sha1 (etag_lines ys)
            → map (λ o. o.etag) xs ≡ map (λ o. o.etag) ys)
        → IsFresh d
        → read_bucket client sha1 decode marshal d ≡ (result, d')
        → IsFresh d'
          × ((apps : List Application) → result ≡ ok apps → AreDecoded (listed d.bucket) apps)
    unfolding read_bucket
    read_bucket-IsFresh d d' result filled distinct fresh h =
        listing (client.list_objects (bytes "discovery/") d.bucket) refl h
      where
        same_tags :
            (xs ys : List S3Object) (apps : List Application)
            → map (λ o. o.etag) xs ≡ map (λ o. o.etag) ys
            → AreDecoded xs apps
            → AreDecoded ys apps
        same_tags [] [] apps e a = a
        same_tags [] (y ∷ ys) apps e a = cc
        same_tags (x ∷ xs) [] apps e a = cc
        same_tags (x ∷ xs) (y ∷ ys) [] e a = a
        same_tags (x ∷ xs) (y ∷ ys) (app ∷ apps) e a =
            let head : x.etag ≡ y.etag = cc in
            let tail : map (λ o. o.etag) xs ≡ map (λ o. o.etag) ys = cc in
            (ap (λ t. decode (body_of t)) (sym head) ∙ a.0, same_tags xs ys apps tail a.1)

        kept :
            (objects : List S3Object) (b : B) (out : Result (List Application) × B)
            → objects ≡ listed d.bucket
            → ((apps : List Application) (b' : B) → out ≡ (ok apps, b') → AreDecoded objects apps)
            → keep_read client sha1 decode marshal d (sha1 (etag_lines objects)) out ≡ (result, d')
            → IsFresh d'
              × ((apps : List Application) → result ≡ ok apps → AreDecoded (listed d.bucket) apps)
        kept objects b (ok apps, b') is decoded k = (
          subst IsFresh (ap (λ p. p.1) k) (
              inr (
                objects,
                subst (All IsLine) (sym is) (listed-IsLine d.bucket),
                refl,
                decoded apps b' refl,
              )),
          λ other e.
              subst (λ l. AreDecoded l other) is
                (subst (AreDecoded objects) (ok-injective (ap (λ p. p.0) k ∙ e))
                  (decoded apps b' refl)),
        )
        kept objects b (err message, b') is decoded k =
            (subst IsFresh (ap (λ p. p.1) k) fresh, λ other e. let p = ap (λ q. q.0) k ∙ e in cc)
        kept objects b (panic, b') is decoded k =
            (subst IsFresh (ap (λ p. p.1) k) fresh, λ other e. let p = ap (λ q. q.0) k ∙ e in cc)

        cached :
            (objects : List S3Object)
            → objects ≡ listed d.bucket
            → d.cached_read_hash ≡ sha1 (etag_lines objects)
            → AreDecoded (listed d.bucket) d.cached_read
        cached objects is hash = elim fresh [
          | inl empty ↦ absurd (filled (etag_lines objects) (sym hash ∙ empty))
          | inr (old, old_lines, old_hash, decoded) ↦
              subst (λ l. AreDecoded l d.cached_read) is
                (same_tags old objects d.cached_read
                  (distinct old objects old_lines
                    (subst (All IsLine) (sym is) (listed-IsLine d.bucket)) (sym old_hash ∙ hash))
                  decoded)
        ]

        listing :
            (out : Result (List S3Object) × B)
            → client.list_objects (bytes "discovery/") d.bucket ≡ out
            → read_listed client sha1 decode marshal d (s3_error (bytes "ListObjects") out)
              ≡ (result, d')
            → IsFresh d'
              × ((apps : List Application) → result ≡ ok apps → AreDecoded (listed d.bucket) apps)
        listing (ok objects, b) e k =
            let (is, same) = tagged.lists (bytes "discovery/") d.bucket b objects e in
            elim (Bool-cases (d.cached_read_hash == sha1 (etag_lines objects))) [
              | inl hit ↦
                  let k' = rw hit at k in
                  (
                    subst IsFresh (ap (λ p. p.1) k') fresh,
                    λ apps f.
                        subst (AreDecoded (listed d.bucket)) (ok-injective (ap (λ p. p.0) k' ∙ f)) (
                          cached objects is
                            ((eq_iff d.cached_read_hash (sha1 (etag_lines objects))).0 hit)),
                  )
              | inr miss ↦
                  kept objects b (read_objects client sha1 decode marshal [] objects b) is
                    (λ apps b' read.
                      let (same', (more, whole, each)) =
                        read_objects-AreDecoded [] [] objects b b' apps (ap listed same ∙ sym is)
                          read in
                      subst (AreDecoded objects) (sym whole) each)
                    (rw miss at k)
            ]
        listing (err message, b) e k =
            (subst IsFresh (ap (λ p. p.1) k) fresh, λ apps f. let p = ap (λ q. q.0) k ∙ f in cc)
        listing (panic, b) e k =
            (subst IsFresh (ap (λ p. p.1) k) fresh, λ apps f. let p = ap (λ q. q.0) k ∙ f in cc)
