-- ===== src/Tests/Base64.antt =====
-- base64.RawURLEncoding and a JSON decoder for plain strings, for runs of pkg/turbocharger.
use edgerouter.Base.{
  ℕ, ◌<◌, ◌+◌, ◌-◌, ◌*◌, ◌/◌, ◌%◌, ◌≡◌, ◌≢◌, refl, ap, ap₂, Str, bytes, true, [], ◌∷◌, ◌++◌, Result,
  ok, err, panic, ltb, leb, eqb, if◌then◌else◌, length, All, arith,
}
use edgerouter.Turbocharger.Ids.{Encodings}
use edgerouter.Turbocharger.Ids.RoundTrip.{IsFaithful, is_url_byte, IsUrlText}

abbrev pub digit : ℕ → ℕ
digit d =
    if ltb d 26
    then 65 + d
    else if ltb d 52
    then 71 + d
    else if ltb d 62
    then d - 4
    else if eqb d 62
    then 45
    else 95

abbrev pub digit_value : ℕ → ℕ
digit_value c =
    if eqb c 45
    then 62
    else if eqb c 95
    then 63
    else if leb c 57
    then c + 4
    else if leb c 90
    then c - 65
    else c - 71

unfoldable pub encode : Str → Str
encode [] = []
encode (a ∷ []) = digit (a / 4) ∷ digit (a % 4 * 16) ∷ []
encode (a ∷ b ∷ []) = digit (a / 4) ∷ digit (a % 4 * 16 + b / 16) ∷ digit (b % 16 * 4) ∷ []
encode (a ∷ b ∷ c ∷ bs) =
    digit (a / 4)
    ∷ digit (a % 4 * 16 + b / 16)
    ∷ digit (b % 16 * 4 + c / 64)
    ∷ digit (c % 64)
    ∷ encode bs

abbrev pub first_byte : ℕ → ℕ → ℕ
first_byte p q = p * 4 + q / 16

abbrev pub second_byte : ℕ → ℕ → ℕ
second_byte q r = q % 16 * 16 + r / 4

abbrev pub third_byte : ℕ → ℕ → ℕ
third_byte r s = r % 4 * 64 + s

unfoldable pub decode_all : Str → Str
decode_all [] = []
decode_all (p ∷ []) = []
decode_all (p ∷ q ∷ []) = first_byte (digit_value p) (digit_value q) ∷ []
decode_all (p ∷ q ∷ r ∷ []) =
    first_byte (digit_value p) (digit_value q) ∷ second_byte (digit_value q) (digit_value r) ∷ []
decode_all (p ∷ q ∷ r ∷ s ∷ cs) =
    first_byte (digit_value p) (digit_value q)
    ∷ second_byte (digit_value q) (digit_value r)
    ∷ third_byte (digit_value r) (digit_value s)
    ∷ decode_all cs

digit_value-digit : (d : ℕ) → d < 64 → digit_value (digit d) ≡ d
digit_value-digit d h = ground arith

digit-url : (d : ℕ) → d < 64 → is_url_byte (digit d) ≡ true
digit-url d h = ground arith

decode_all-encode : (bs : Str) → All (λ b. b < 256) bs → decode_all (encode bs) ≡ bs
unfolding decode_all encode
decode_all-encode [] h = refl
decode_all-encode (a ∷ []) h =
    let ha : a < 256 = h.0 in
    rw (digit_value-digit (a / 4) (omega arith), digit_value-digit (a % 4 * 16) (omega arith))
      (ap (λ x. x ∷ []) (omega arith))
decode_all-encode (a ∷ b ∷ []) h =
    let ha : a < 256 = h.0 in
    let hb : b < 256 = h.1.0 in
    rw
      (
        digit_value-digit (a / 4) (omega arith),
        digit_value-digit (a % 4 * 16 + b / 16) (omega arith),
        digit_value-digit (b % 16 * 4) (omega arith),
      )
      (ap₂ (λ x y. x ∷ y ∷ []) (omega arith) (omega arith))
decode_all-encode (a ∷ b ∷ c ∷ bs) h =
    let ha : a < 256 = h.0 in
    let hb : b < 256 = h.1.0 in
    let hc : c < 256 = h.1.1.0 in
    rw
      (
        digit_value-digit (a / 4) (omega arith),
        digit_value-digit (a % 4 * 16 + b / 16) (omega arith),
        digit_value-digit (b % 16 * 4 + c / 64) (omega arith),
        digit_value-digit (c % 64) (omega arith),
        decode_all-encode bs h.1.1.1,
      )
      (ap₂ (λ x l. x ∷ l) (omega arith) (ap₂ (λ x y. x ∷ y ∷ bs) (omega arith) (omega arith)))

encode-url : (bs : Str) → All (λ b. b < 256) bs → IsUrlText (encode bs)
unfolding encode
encode-url [] h = tt
encode-url (a ∷ []) h =
    let ha : a < 256 = h.0 in
    (digit-url (a / 4) (omega arith), (digit-url (a % 4 * 16) (omega arith), tt))
encode-url (a ∷ b ∷ []) h =
    let ha : a < 256 = h.0 in
    let hb : b < 256 = h.1.0 in
    (
      digit-url (a / 4) (omega arith),
      (digit-url (a % 4 * 16 + b / 16) (omega arith), (digit-url (b % 16 * 4) (omega arith), tt)),
    )
encode-url (a ∷ b ∷ c ∷ bs) h =
    let ha : a < 256 = h.0 in
    let hb : b < 256 = h.1.0 in
    let hc : c < 256 = h.1.1.0 in
    (
      digit-url (a / 4) (omega arith),
      (
        digit-url (a % 4 * 16 + b / 16) (omega arith),
        (
          digit-url (b % 16 * 4 + c / 64) (omega arith),
          (digit-url (c % 64) (omega arith), encode-url bs h.1.1.1),
        ),
      ),
    )

length-encode : (n : ℕ) (bs : Str) → length bs ≡ n * 3 + 2 → length (encode bs) ≡ n * 4 + 3
unfolding encode
length-encode n [] h = absurd (omega arith)
length-encode n (a ∷ []) h = absurd (omega arith)
length-encode ℕ.zero (a ∷ b ∷ []) h = refl
length-encode (ℕ.suc n) (a ∷ b ∷ []) h = absurd (omega arith)
length-encode ℕ.zero (a ∷ b ∷ c ∷ bs) h = absurd (omega arith)
length-encode (ℕ.suc n) (a ∷ b ∷ c ∷ bs) h =
    let rest = length-encode n bs (omega arith) in omega (arith, rest)

unfoldable pub without_last : Str → Str
without_last [] = []
without_last (c ∷ []) = []
without_last (c ∷ d ∷ s) = c ∷ without_last (d ∷ s)

without_last-append : (s : Str) (c : ℕ) → without_last (s ++ c ∷ []) ≡ s
unfolding without_last
without_last-append [] c = refl
without_last-append (d ∷ []) c = refl
without_last-append (d ∷ e ∷ s) c = ap (λ l. d ∷ l) (without_last-append (e ∷ s) c)

abbrev pub string_of_json : Str → Result Str
string_of_json [] = err (bytes "unexpected end of JSON input")
string_of_json (c ∷ s) = if eqb c 34 then ok (without_last s) else err (bytes "invalid character")

abbrev pub raw_url : Encodings
raw_url = record {
  base64_encode = encode;
  base64_decode = λ s. ok (decode_all s);
  check_json = λ s. ok tt;
  json_string = string_of_json;
}

string_of_json-returns : (s : Str) → string_of_json s ≢ panic
string_of_json-returns [] h = cc
string_of_json-returns (c ∷ s) h = ground arith

pub raw_url-IsFaithful : IsFaithful raw_url
unfolding bytes
raw_url-IsFaithful = record {
  decodes = λ id h. ap ok (decode_all-encode id h.1);
  encoded_length = λ id h. length-encode 10 id h.0;
  alphabet = λ id h. encode-url id h.1;
  plain_json = λ s h. (refl, ap ok (without_last-append s 34));
  decode_returns = λ s h. cc;
  check_returns = λ s h. cc;
  string_returns = string_of_json-returns;
}
