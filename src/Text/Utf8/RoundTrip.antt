-- ===== src/Text/Utf8/RoundTrip.antt =====
-- Decoding what was encoded.
use pyspark_client_wasm.Prelude.{
  ℕ, ◌+◌, ◌-◌, ◌*◌, ◌/◌, ◌%◌, ◌≤◌, ◌<◌, ◌⊎◌, ◌≡◌, sym, ap, ◌∙◌, [], ◌∷◌, ◌++◌, arith, append_assoc,
  append-nil, Bytes, Text, ok, >>=-eq-ok, ◌==◌, if◌then◌else◌,
}
use pyspark_client_wasm.Text.Utf8.{
  encode_char, encode, idle, one, two, three, start, feed, decode_from, decode,
}

module _ (acc b : ℕ) {lo hi : ℕ} (above : lo ≤ b) (below : b ≤ hi) where
  feed-one : feed (one acc lo hi) b ≡ ((acc * 64 + (b - 0x80)) ∷ [], idle)
  unfolding feed
  feed-one = ground arith

  feed-two : feed (two acc lo hi) b ≡ ([], one (acc * 64 + (b - 0x80)) 0x80 0xBF)
  unfolding feed
  feed-two = ground arith

  feed-three : feed (three acc lo hi) b ≡ ([], two (acc * 64 + (b - 0x80)) 0x80 0xBF)
  unfolding feed
  feed-three = ground arith

decode-ascii :
    (c : ℕ) (rest : Bytes) → c < 0x80 → decode_from idle (c ∷ rest) ≡ c ∷ decode_from idle rest
unfolding decode_from
decode-ascii c rest h = ground arith

start-two_bytes : (b : ℕ) → 0xC2 ≤ b → b < 0xE0 → start b ≡ ([], one (b - 0xC0) 0x80 0xBF)
unfolding start
start-two_bytes b h k = ground arith

-- The bounds on the second byte that rule out an overlong form, a surrogate and what is too large.
abbrev second_lo : ℕ → ℕ
second_lo b = if b == 0xE0 then 0xA0 else if b == 0xF0 then 0x90 else 0x80

abbrev second_hi : ℕ → ℕ
second_hi b = if b == 0xED then 0x9F else if b == 0xF4 then 0x8F else 0xBF

start-three_bytes :
    (b : ℕ) → 0xE0 ≤ b → b < 0xF0 → start b ≡ ([], two (b - 0xE0) (second_lo b) (second_hi b))
unfolding start
start-three_bytes b h k = ground arith

start-four_bytes :
    (b : ℕ) → 0xF0 ≤ b → b < 0xF5 → start b ≡ ([], three (b - 0xF0) (second_lo b) (second_hi b))
unfolding start
start-four_bytes b h k = ground arith

decode-two_bytes :
    (b d : ℕ) (rest : Bytes)
    → 0xC2 ≤ b
    → b < 0xE0
    → 0x80 ≤ d
    → d ≤ 0xBF
    → decode_from idle (b ∷ d ∷ rest) ≡ ((b - 0xC0) * 64 + (d - 0x80)) ∷ decode_from idle rest
unfolding decode_from
decode-two_bytes b d rest h k l m = rw (start-two_bytes b h k) (rw (feed-one (b - 0xC0) d l m))

module _ (b d e : ℕ) (rest : Bytes) (l : second_lo b ≤ d) (m : d ≤ second_hi b) (l' : 0x80 ≤ e)
    (m' : e ≤ 0xBF) where
  decode-three_bytes :
      0xE0 ≤ b
      → b < 0xF0
      → decode_from idle (b ∷ d ∷ e ∷ rest)
        ≡ (((b - 0xE0) * 64 + (d - 0x80)) * 64 + (e - 0x80)) ∷ decode_from idle rest
  unfolding decode_from
  decode-three_bytes h k =
      rw (start-three_bytes b h k)
        (rw (feed-two (b - 0xE0) d l m) (rw (feed-one ((b - 0xE0) * 64 + (d - 0x80)) e l' m')))

  decode-four_bytes :
      (f : ℕ)
      → 0xF0 ≤ b
      → b < 0xF5
      → 0x80 ≤ f
      → f ≤ 0xBF
      → decode_from idle (b ∷ d ∷ e ∷ f ∷ rest)
        ≡ ((((b - 0xF0) * 64 + (d - 0x80)) * 64 + (e - 0x80)) * 64 + (f - 0x80))
          ∷ decode_from idle rest
  unfolding decode_from
  decode-four_bytes f h k lf mf = rw (start-four_bytes b h k) (
      rw (feed-three (b - 0xF0) d l m) (
        rw (feed-two ((b - 0xF0) * 64 + (d - 0x80)) e l' m')
          (rw (feed-one (((b - 0xF0) * 64 + (d - 0x80)) * 64 + (e - 0x80)) f lf mf))))

head_eq : (a b : ℕ) (s : Text) → a ≡ b → a ∷ s ≡ b ∷ s
head_eq a b s h = ap (λ x. x ∷ s) h

module _ (c : ℕ) (rest : Bytes) where
  decode-small :
      0x80 ≤ c
      → c < 0x800
      → decode_from idle ((0xC0 + c / 64) ∷ (0x80 + c % 64) ∷ rest) ≡ c ∷ decode_from idle rest
  decode-small h k =
      decode-two_bytes (0xC0 + c / 64) (0x80 + c % 64) rest (omega arith) (omega arith)
        (omega arith) (omega arith)
      ∙ head_eq _ c _ (omega arith)

  decode-medium :
      0x800 ≤ c
      → c < 0x1_0000
      → (c < 0xD800) ⊎ (0xDFFF < c)
      → decode_from idle ((0xE0 + c / 4096) ∷ (0x80 + c / 64 % 64) ∷ (0x80 + c % 64) ∷ rest)
        ≡ c ∷ decode_from idle rest
  decode-medium h k s =
      decode-three_bytes (0xE0 + c / 4096) (0x80 + c / 64 % 64) (0x80 + c % 64) rest (ground arith)
        (ground arith) (omega arith) (omega arith) (omega arith) (omega arith)
      ∙ head_eq _ c _ (omega arith)

  decode-large :
      0x1_0000 ≤ c
      → c < 0x11_0000
      → decode_from idle (
          (0xF0 + c / 262144)
          ∷ (0x80 + c / 4096 % 64)
          ∷ (0x80 + c / 64 % 64)
          ∷ (0x80 + c % 64)
          ∷ rest)
        ≡ c ∷ decode_from idle rest
  decode-large h k =
      decode-four_bytes (0xF0 + c / 262144) (0x80 + c / 4096 % 64) (0x80 + c / 64 % 64) rest
        (ground arith) (ground arith) (omega arith) (omega arith) (0x80 + c % 64) (omega arith)
        (omega arith) (omega arith) (omega arith)
      ∙ head_eq _ c _ (omega arith)

decode-encode_char :
    (c : ℕ) (bs rest : Bytes)
    → encode_char c ≡ ok bs
    → decode_from idle (bs ++ rest) ≡ c ∷ decode_from idle rest
unfolding encode_char
decode-encode_char c bs rest h =
    ground
      (arith, decode-ascii c rest, decode-small c rest, decode-medium c rest, decode-large c rest)

decode_from-encode :
    (s : Text) (bs rest : Bytes)
    → encode s ≡ ok bs
    → decode_from idle (bs ++ rest) ≡ s ++ decode_from idle rest
unfolding encode
decode_from-encode [] bs rest h = ground arith
decode_from-encode (c ∷ s) bs rest h =
    let (b, eb, h') = >>=-eq-ok (encode_char c) _ h in
    let (r, er, h'') = >>=-eq-ok (encode s) _ h' in
    let joined : b ++ r ≡ bs = cc h'' in
    rw (← joined) (
      rw append_assoc
        (decode-encode_char c b (r ++ rest) eb ∙ ap (◌∷◌ c) (decode_from-encode s r rest er)))

-- Decoding what `encode` gave for a text gives that text back.
pub decode-encode : (s : Text) (bs : Bytes) → encode s ≡ ok bs → decode bs ≡ s
unfolding decode decode_from
decode-encode s bs h =
    ap (decode_from idle) (sym (append-nil bs)) ∙ decode_from-encode s bs [] h ∙ append-nil s
