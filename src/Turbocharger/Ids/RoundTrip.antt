-- ===== src/Turbocharger/Ids/RoundTrip.antt =====
-- pkg/turbocharger/types.go: what is written as text is read back.
use edgerouter.Base.{
  ◌⊎◌, ℕ, ◌≡◌, ◌≢◌, ◌≤◌, ◌<◌, refl, ap, ◌∙◌, inl, inr, Str, bytes, Bool, true, ◌&&◌, ◌||◌, [], ◌∷◌,
  Result, ok, err, panic, ◌>>=◌, ◌>>◌, eqb, leb, ltb, length, All, Bool-cases, arith, >>=-eq-ok,
  ok-injective,
}
use edgerouter.Turbocharger.Ids.{
  ObjectId, id_size, Encodings, take, quoted, id_string, marshal_json, copy_to_id, unmarshal_json,
  object_id_from_string,
}

-- The alphabet of base64 for URLs: digits, letters, `-` and `_`.
abbrev pub is_url_byte : ℕ → Bool
is_url_byte c =
    (leb 48 c && leb c 57)
    || (leb 65 c && leb c 90)
    || (leb 97 c && leb c 122)
    || eqb c 45
    || eqb c 95

abbrev pub IsUrlText : Str → Type 0
IsUrlText = All (λ c. is_url_byte c ≡ true)

-- An array of 32 bytes.
abbrev pub IsObjectId : ObjectId → Type 0
IsObjectId id = (length id ≡ id_size) × All (λ b. b < 256) id

-- What the documentation of encoding/base64 and encoding/json says: 32 bytes are encoded
-- without padding in 43 characters of the alphabet, which decode to the bytes, and a quoted text of
-- this alphabet is JSON for the text. None of the functions panics.
pub record IsFaithful (enc : Encodings) : Type 0 where
  pub decodes : (id : ObjectId) → IsObjectId id → enc.base64_decode (enc.base64_encode id) ≡ ok id
  pub encoded_length : (id : ObjectId) → IsObjectId id → length (enc.base64_encode id) ≡ 43
  pub alphabet : (id : ObjectId) → IsObjectId id → IsUrlText (enc.base64_encode id)
  pub plain_json :
      (s : Str)
      → IsUrlText s
      → (enc.check_json (quoted s) ≡ ok tt) × (enc.json_string (quoted s) ≡ ok s)
  pub decode_returns : (s : Str) → enc.base64_decode s ≢ panic
  pub check_returns : (s : Str) → enc.check_json s ≢ panic
  pub string_returns : (s : Str) → enc.json_string s ≢ panic

take-all : (bs : Str) → take (length bs) bs ≡ bs
take-all [] = refl
take-all (b ∷ bs) = ap (λ l. b ∷ l) (take-all bs)

length-take : (n : ℕ) (bs : Str) → n ≤ length bs → length (take n bs) ≡ n
length-take ℕ.zero bs h = refl
length-take (ℕ.suc n) [] h = absurd (omega arith)
length-take (ℕ.suc n) (b ∷ bs) h = let e = length-take n bs (omega arith) in omega (arith, e)

copy_to_id_self : (id : ObjectId) → length id ≡ id_size → copy_to_id id ≡ ok id
copy_to_id_self id h =
    rw h (ap ok (ap (λ n. take n id) {x = id_size} {y = length id} (rw h refl) ∙ take-all id))

copy_to_id-length : (bs : Str) {id : ObjectId} → copy_to_id bs ≡ ok id → length id ≡ id_size
copy_to_id-length bs {id} h = elim (Bool-cases (ltb (length bs) id_size)) [
  | inl e ↦ let h' = rw e at h in cc
  | inr e ↦
      let is : take id_size bs ≡ id = ok-injective (rw e at h) in
      rw (← is) (length-take id_size bs (ground arith))
]

module _ (enc : Encodings) where
  pub unmarshal_json-length :
      (b : Str) {id : ObjectId} → unmarshal_json enc b ≡ ok id → length id ≡ id_size
  unfolding unmarshal_json
  unmarshal_json-length b h =
      let (temp, read, rest) = >>=-eq-ok (enc.json_string b) _ h in
      let (decoded, is, copied) = >>=-eq-ok (enc.base64_decode temp) _ rest in
      copy_to_id-length decoded copied

  pub object_id_from_string-length :
      (s : Str) {id : ObjectId} → object_id_from_string enc s ≡ ok id → length id ≡ id_size
  unfolding object_id_from_string bytes
  object_id_from_string-length s h = elim (Bool-cases (eqb (length s) 43)) [
    | inl e ↦
        let (checked, is, read) = >>=-eq-ok (enc.check_json (quoted s)) _ (rw e at h) in
        unmarshal_json-length (quoted s) read
    | inr e ↦ let h' = rw e at h in cc
  ]

  module _ (faithful : IsFaithful enc) where
    pub unmarshal_json-quoted :
        (id : ObjectId) → IsObjectId id → unmarshal_json enc (quoted (id_string enc id)) ≡ ok id
    unfolding unmarshal_json
    unmarshal_json-quoted id h =
        let (checks, reads) = faithful.plain_json (id_string enc id) (faithful.alphabet id h) in
        rw (reads, faithful.decodes id h) (copy_to_id_self id h.0)

    pub object_id_from_string-id_string :
        (id : ObjectId) → IsObjectId id → object_id_from_string enc (id_string enc id) ≡ ok id
    unfolding object_id_from_string bytes
    object_id_from_string-id_string id h =
        let (checks, reads) = faithful.plain_json (id_string enc id) (faithful.alphabet id h) in
        rw (faithful.encoded_length id h, checks) (unmarshal_json-quoted id h)

    copy_to_id-returns : (bs : Str) → copy_to_id bs ≢ panic
    copy_to_id-returns bs h = elim (Bool-cases (ltb (length bs) id_size)) [
      | inl e ↦ let h' = rw e at h in cc
      | inr e ↦ let h' = rw e at h in cc
    ]

    pub object_id_from_string-returns : (s : Str) → object_id_from_string enc s ≢ panic
    unfolding object_id_from_string bytes unmarshal_json
    object_id_from_string-returns s h = elim (Bool-cases (eqb (length s) 43)) [
      | inl e ↦ checked (enc.check_json (quoted s)) refl (rw e at h)
      | inr e ↦ let h' = rw e at h in cc
    ]
      where
        decoded :
            (m : Result Str) (temp : Str)
            → enc.base64_decode temp ≡ m
            → (m >>= λ bs. copy_to_id bs) ≡ panic
            → ⊥
        decoded (ok bs) temp e k = copy_to_id-returns bs k
        decoded (err message) temp e k = cc
        decoded panic temp e k = faithful.decode_returns temp e

        read :
            (m : Result Str)
            → enc.json_string (quoted s) ≡ m
            → (m >>= λ temp. enc.base64_decode temp >>= λ bs. copy_to_id bs) ≡ panic
            → ⊥
        read (ok temp) e k = decoded (enc.base64_decode temp) temp refl k
        read (err message) e k = cc
        read panic e k = faithful.string_returns (quoted s) e

        checked :
            (m : Result (Unit {0}))
            → enc.check_json (quoted s) ≡ m
            → (m
                >> (enc.json_string (quoted s) >>= λ temp.
                    enc.base64_decode temp >>= λ bs. copy_to_id bs))
              ≡ panic
            → ⊥
        checked (ok u) e k = read (enc.json_string (quoted s)) refl k
        checked (err message) e k = cc
        checked panic e k = faithful.check_returns (quoted s) e

-- Writing a content id of 32 bytes as text and reading it gives the same id, and so does writing it
-- as JSON and reading that; and whatever text or JSON is read as an id, the id has 32 bytes.
pub id_string-unmarshal :
    (enc : Encodings) (id : ObjectId)
    → IsFaithful enc
    → IsObjectId id
    → (object_id_from_string enc (id_string enc id) ≡ ok id)
      × (unmarshal_json enc (marshal_json enc id) ≡ ok id)
      × ((s : Str) (other : ObjectId)
          → (object_id_from_string enc s ≡ ok other) ⊎ (unmarshal_json enc s ≡ ok other)
          → length other ≡ id_size)
id_string-unmarshal enc id faithful h = (
  object_id_from_string-id_string enc faithful id h,
  unmarshal_json-quoted enc faithful id h,
  λ s other. elim [
    | inl e ↦ object_id_from_string-length enc s e
    | inr e ↦ unmarshal_json-length enc s e
  ],
)
