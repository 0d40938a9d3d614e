-- ===== src/Framing/Header.antt =====
-- The frame header: packing and unpacking.
use mathlib.Core.Path.{ap₂}
use pyspark_client_wasm.Prelude.{
  ℕ, ◌+◌, ◌*◌, ◌/◌, ◌%◌, ◌^◌, ◌≤◌, ◌<◌, ◌≡◌, refl, sym, ap, ◌∙◌, ◌∷◌, ◌++◌, arith, length, take,
  drop, length-append, All, Bytes, ok, ◌>>=◌, >>=-eq-ok,
}
use pyspark_client_wasm.Framing.{header_len, pack, unpack_from, encode_message}

-- A packed header has five bytes, and a length that fits.
pub pack_parts :
    (flags n : ℕ) {h : Bytes} → pack flags n ≡ ok h → (length h ≡ header_len) × (n < 2 ^ 32)
unfolding pack
pack_parts flags n e = ground arith

-- Unpacking what was packed, whatever stands behind it.
pub unpack_from-pack :
    (flags n : ℕ) {h : Bytes} (rest : Bytes)
    → pack flags n ≡ ok h
    → unpack_from (h ++ rest) 0 ≡ (flags, n)
unfolding pack unpack_from
unpack_from-pack flags n rest e = ground arith

pub unpack_from-drop : (bs : Bytes) (off : ℕ) → unpack_from bs off ≡ unpack_from (drop off bs) 0
unfolding unpack_from
unpack_from-drop bs off = refl

abbrev pub IsByte : ℕ → Type 0
IsByte b = b < 256

-- The four length bytes, most significant first, are those of the number that they spell.
length_bytes :
    (a b c d : ℕ)
    → a < 256
    → b < 256
    → c < 256
    → d < 256
    → (n : ℕ) × (n ≡ a * 2 ^ 24 + b * 2 ^ 16 + c * 2 ^ 8 + d)
      × (n < 2 ^ 32)
      × (n / 2 ^ 24 ≡ a)
      × (n / 2 ^ 16 % 256 ≡ b)
      × (n / 2 ^ 8 % 256 ≡ c)
      × (n % 256 ≡ d)
length_bytes a b c d ha hb hc hd = (
  a * 2 ^ 24 + b * 2 ^ 16 + c * 2 ^ 8 + d,
  refl,
  omega arith,
  omega arith,
  omega arith,
  omega arith,
  omega arith,
)

-- A header that is there is the packing of what was unpacked.
pub pack-unpack_from :
    (bs : Bytes)
    → All IsByte bs
    → header_len ≤ length bs
    → (pack (unpack_from bs 0).0 (unpack_from bs 0).1 ≡ ok (take header_len bs))
      × ((unpack_from bs 0).0 < 256)
unfolding pack unpack_from
pack-unpack_from (f ∷ a ∷ b ∷ c ∷ d ∷ rest) h l =
    (ground (arith, length_bytes a b c d h.1.0 h.1.1.0 h.1.1.1.0 h.1.1.1.1.0), h.0)
pack-unpack_from _ h l = absurd (omega arith)

pub encode_message_lem :
    (payload : Bytes) (flags : ℕ)
    → encode_message payload flags
      ≡ (pack (flags % 256) (length payload) >>= λ header. ok (header ++ payload))
unfolding encode_message
encode_message_lem payload flags = refl

pub encode_message_of_pack :
    (payload : Bytes) (flags size : ℕ) {h : Bytes}
    → flags < 256
    → length payload ≡ size
    → pack flags size ≡ ok h
    → encode_message payload flags ≡ ok (h ++ payload)
encode_message_of_pack payload flags size {h} small e p =
    let p' : pack (flags % 256) (length payload) ≡ ok h =
      let same : flags % 256 ≡ flags = omega arith in ap₂ pack same e ∙ p in
    encode_message_lem payload flags ∙ rw p'

pub encode_message_parts :
    (payload : Bytes) (flags : ℕ) {bs : Bytes}
    → encode_message payload flags ≡ ok bs
    → (h : Bytes) × (pack (flags % 256) (length payload) ≡ ok h) × (bs ≡ h ++ payload)
encode_message_parts payload flags e =
    let (h, p, q) =
      >>=-eq-ok (pack (flags % 256) (length payload)) (λ h. ok (h ++ payload))
        (sym (encode_message_lem payload flags) ∙ e) in
    (h, p, cc q)

pub length-encode_message :
    (payload : Bytes) (flags : ℕ) {bs : Bytes}
    → encode_message payload flags ≡ ok bs
    → length bs ≡ header_len + length payload
length-encode_message payload flags e =
    let (h, p, q) = encode_message_parts payload flags e in
    omega
      (arith, (pack_parts (flags % 256) (length payload) p).0, ap length q, length-append h payload)

pub unpack_from-append :
    (bs cs : Bytes) → header_len ≤ length bs → unpack_from (bs ++ cs) 0 ≡ unpack_from bs 0
unfolding unpack_from
unpack_from-append (f ∷ a ∷ b ∷ c ∷ d ∷ bs) cs h = refl
unpack_from-append _ cs h = absurd (omega arith)
