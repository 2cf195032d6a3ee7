-- ===== src/Tests/Objects.antt =====
-- Runs of pkg/erdiscovery/s3discovery/s3discovery.go.
use edgerouter.Base.{
  has_prefix, ◌≡◌, refl, sym, ap, ap₂, ◌∙◌, Str, bytes, ◌==◌, ok-injective, List, [], ◌∷◌, ◌++◌,
  map, append_assoc, Result, ok, err, All, split, split-part, if◌then◌else◌, inl,
}
use edgerouter.Config.{Application}
use edgerouter.Discovery.Bucket.{
  S3Object, Bucket, S3Discovery, new_s3_discovery, etag_lines, read_bucket,
}
use edgerouter.Discovery.Bucket.Fresh.{
  first_page, IsLine, IsTagged, IsFresh, AreDecoded, read_bucket-IsFresh,
}
use edgerouter.Tests.Sample.{api_app, shop_app}

-- A bucket that is a list of objects, whose contents are their tags.
abbrev body_at : Str → List S3Object → Result Str
body_at key [] = err (bytes "NoSuchKey")
body_at key (object ∷ objects) = if object.key == key then ok object.etag else body_at key objects

abbrev api_object : S3Object
api_object = record { key = bytes "discovery/api.json"; etag = bytes "1" }

abbrev shop_object : S3Object
shop_object = record { key = bytes "discovery/shop.json"; etag = bytes "2" }

abbrev two_objects : List S3Object
two_objects = api_object ∷ shop_object ∷ []

abbrev lease_object : S3Object
lease_object = record { key = bytes "lease"; etag = bytes "3" }

-- The bucket has another object, outside of "discovery/".
abbrev all_objects : List S3Object
all_objects = api_object ∷ shop_object ∷ lease_object ∷ []

pages : first_page (bytes "discovery/") all_objects ≡ two_objects
unfolding has_prefix bytes
pages = refl

abbrev shelf : Bucket (Unit {0})
shelf = record {
  list_objects = λ prefix b. (ok (first_page prefix all_objects), b);
  get_object = λ key b. (body_at key all_objects, b);
  put_object = λ key content_type body b. (ok tt, b);
  delete_object = λ key b. (ok tt, b);
}

abbrev decode_tag : Str → Result Application
decode_tag body = if body == bytes "1" then ok api_app else ok shop_app

abbrev marshal_id : Application → Result Str
marshal_id app = ok app.id

-- A digest without collisions.
abbrev whole : Str → Str
whole s = 0 ∷ s

abbrev same_body : Str → Str
same_body etag = etag

etag_lines-split :
    (xs : List S3Object)
    → All IsLine xs
    → split b'\n' (etag_lines xs) ≡ map (λ o. o.etag) xs ++ ([] ∷ [])
unfolding split bytes
etag_lines-split [] h = refl
etag_lines-split (x ∷ xs) h =
    ap (split b'\n') (append_assoc x.etag (b'\n' ∷ []) (etag_lines xs))
    ∙ split-part b'\n' x.etag (etag_lines xs) h.0
    ∙ ap (λ l. x.etag ∷ l) (etag_lines-split xs h.1)

without_end :
    (xs ys : List S3Object)
    → map (λ o. o.etag) xs ++ ([] ∷ []) ≡ map (λ o. o.etag) ys ++ ([] ∷ [])
    → map (λ o. o.etag) xs ≡ map (λ o. o.etag) ys
without_end [] [] e = refl
without_end [] (y ∷ []) e = cc
without_end [] (y ∷ z ∷ ys) e = cc
without_end (x ∷ []) [] e = cc
without_end (x ∷ z ∷ xs) [] e = cc
without_end (x ∷ xs) (y ∷ ys) e =
    let head : x.etag ≡ y.etag = cc in
    let tail : map (λ o. o.etag) xs ++ ([] ∷ []) ≡ map (λ o. o.etag) ys ++ ([] ∷ []) = cc in
    ap₂ (λ a l. a ∷ l) head (without_end xs ys tail)

whole-distinct :
    (xs ys : List S3Object)
    → All IsLine xs
    → All IsLine ys
    → whole (etag_lines xs) ≡ whole (etag_lines ys)
    → map (λ o. o.etag) xs ≡ map (λ o. o.etag) ys
whole-distinct xs ys lx ly e =
    let same : etag_lines xs ≡ etag_lines ys = cc in
    without_end xs ys
      (sym (etag_lines-split xs lx) ∙ ap (split b'\n') same ∙ etag_lines-split ys ly)

shelf-gets :
    (b b' : Unit {0}) (key body : Str)
    → ◌≡◌ {A = Result Str × Unit {0}} (body_at key all_objects, b) (ok body, b')
    → (b' ≡ b) × All (λ object. object.key ≡ key → body ≡ same_body object.etag) all_objects
unfolding bytes ◌==◌
shelf-gets b b' key body h =
    let there : body_at key all_objects ≡ ok body = ap (λ p. p.0) h in
    (
      sym (ap (λ p. p.1) h),
      (at api_object refl there, (at shop_object refl there, (at lease_object refl there, tt))),
    )
  where
    at :
        (object : S3Object)
        → body_at object.key all_objects ≡ ok object.etag
        → body_at key all_objects ≡ ok body
        → object.key ≡ key
        → body ≡ object.etag
    at object reads there same =
        ok-injective (sym there ∙ ap (λ k. body_at k all_objects) (sym same) ∙ reads)

shelf-IsTagged : IsTagged shelf whole decode_tag marshal_id same_body (λ b. all_objects)
unfolding bytes
shelf-IsTagged = record {
  lists = λ prefix b b' objects h. (sym (ok-injective (ap (λ p. p.0) h)), sym (ap (λ p. p.1) h));
  lines = λ b. ((refl, tt), ((refl, tt), ((refl, tt), tt)));
  gets = shelf-gets;
}

abbrev both_read : S3Discovery (Unit {0})
both_read = record {
  cached_read = api_app ∷ shop_app ∷ [];
  cached_read_hash = whole (etag_lines two_objects);
  bucket = tt;
}

first_read :
    read_bucket shelf whole decode_tag marshal_id (new_s3_discovery tt)
    ≡ (ok (api_app ∷ shop_app ∷ []), both_read)
unfolding read_bucket ◌==◌ bytes has_prefix
first_read = refl

second_read :
    read_bucket shelf whole decode_tag marshal_id both_read
    ≡ (ok (api_app ∷ shop_app ∷ []), both_read)
unfolding read_bucket ◌==◌ bytes has_prefix
second_read = refl

read_bucket-IsFresh_example :
    IsFresh shelf whole decode_tag marshal_id same_body (λ b. all_objects) shelf-IsTagged both_read
    × ((apps : List Application)
        → ok (api_app ∷ shop_app ∷ []) ≡ ok apps
        → AreDecoded shelf whole decode_tag marshal_id same_body two_objects apps)
unfolding has_prefix bytes
read_bucket-IsFresh_example =
    read_bucket-IsFresh shelf whole decode_tag marshal_id same_body (λ b. all_objects)
      shelf-IsTagged (new_s3_discovery tt) both_read (ok (api_app ∷ shop_app ∷ [])) (λ s h. cc)
      whole-distinct (inl refl) first_read
