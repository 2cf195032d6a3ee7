-- ===== src/Turbocharger/Ids.antt =====
-- pkg/turbocharger/types.go: the names of contents, as text and in JSON.
pub mod RoundTrip
use edgerouter.Base.{
  ℕ, ◌≡◌, ◌≢◌, refl, ap, ◌∙◌, ◌↔◌, inl, inr, Str, bytes, ◌==◌, Bool, true, false, ◌&&◌, ◌||◌, List,
  [], ◌∷◌, ◌++◌, Result, ok, err, panic, ◌>>=◌, ◌>>◌, if◌then◌else◌, eqb, leb, ltb, length, All,
  All_imp, HasNone, split, join, split-join, Bool-cases, arith,
}

-- The bytes of an ObjectID; there are 32 of them.
abbrev pub ObjectId : Type 0
ObjectId = Str

abbrev pub id_size : ℕ
id_size = 32

-- base64.RawURLEncoding, and json.Unmarshal by its two parts: the check of the text's syntax and
-- the decoding of a text to a string.
pub record Encodings : Type 0 where
  pub base64_encode : Str → Str
  pub base64_decode : Str → Result Str
  pub check_json : Str → Result (Unit {0})
  pub json_string : Str → Result Str

-- The first `n` elements.
abbrev pub take : {A : Type 0} → ℕ → List A → List A
take ℕ.zero xs = []
take (ℕ.suc n) [] = []
take (ℕ.suc n) (x ∷ xs) = x ∷ take n xs

abbrev pub quoted : Str → Str
quoted s = bytes "\"" ++ s ++ bytes "\""

-- `copy` fills the array from the front, and reports how much it copied.
abbrev pub copy_to_id : Str → Result ObjectId
copy_to_id bs =
    if ltb (length bs) id_size then err (bytes "incorrect length") else ok (take id_size bs)

module _ (enc : Encodings) where
  abbrev pub id_string : ObjectId → Str
  id_string id = enc.base64_encode id

  abbrev pub etag_gzipped : ObjectId → Str
  etag_gzipped id = bytes "\"" ++ id_string id ++ bytes "-gz\""

  abbrev pub etag_uncompressed : ObjectId → Str
  etag_uncompressed id = quoted (id_string id)

  abbrev pub marshal_json : ObjectId → Str
  marshal_json id = quoted (id_string id)

  unfoldable pub unmarshal_json : Str → Result ObjectId
  unmarshal_json b = do
    temp ← enc.json_string b
    decoded ← enc.base64_decode temp
    copy_to_id decoded

  -- The message's number is left out: it is the length of the text.
  unfoldable pub object_id_from_string : Str → Result ObjectId
  unfolding unmarshal_json
  object_id_from_string serialized =
      if eqb (length serialized) (length (bytes "bkL0DwZiwOdWij766bl0qyZDrsj4zy-EqmL25fNaBAM"))
      then enc.check_json (quoted serialized) >> unmarshal_json (quoted serialized)
      else err (bytes "invalid length for ObjectID")
