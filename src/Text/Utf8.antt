-- ===== src/Text/Utf8.antt =====
-- bytes.decode("utf-8", errors="replace") and str.encode("utf-8").
pub mod RoundTrip
use pyspark_client_wasm.Prelude.{
  ℕ, ◌+◌, ◌-◌, ◌*◌, ◌/◌, ◌%◌, [], ◌∷◌, ◌++◌, ltb, ◌==◌, if◌then◌else◌, within, Bytes, Text, Result,
  ok, err, unicode_error, ◌>>=◌,
}

-- One character; a surrogate has no encoding.
unfoldable pub encode_char : ℕ → Result Bytes
encode_char c =
    if ltb c 0x80
    then ok (c ∷ [])
    else if ltb c 0x800
    then ok ((0xC0 + c / 64) ∷ (0x80 + c % 64) ∷ [])
    else if within 0xD800 0xDFFF c
    then err (unicode_error c)
    else if ltb c 0x1_0000
    then ok ((0xE0 + c / 4096) ∷ (0x80 + c / 64 % 64) ∷ (0x80 + c % 64) ∷ [])
    else if ltb c 0x11_0000
    then ok
        ((0xF0 + c / 262144) ∷ (0x80 + c / 4096 % 64) ∷ (0x80 + c / 64 % 64) ∷ (0x80 + c % 64) ∷ [])
    else err (unicode_error c)

-- s.encode("utf-8")
unfoldable pub encode : Text → Result Bytes
encode [] = ok []
encode (c ∷ s) = do bs ← encode_char c; rest ← encode s; ok (bs ++ rest)

-- The decoder between two bytes: the bits read, and the range of the next continuation byte.
pub data Pending : Type 0 where
  idle : Pending
  one two three : ℕ → ℕ → ℕ → Pending

abbrev pub replacement : ℕ
replacement = 0xFFFD

-- A byte that starts a character.
start : ℕ → Text × Pending
start b =
    if ltb b 0x80
    then (b ∷ [], idle)
    else if ltb b 0xC2
    then (replacement ∷ [], idle)
    else if ltb b 0xE0
    then ([], one (b - 0xC0) 0x80 0xBF)
    else if b == 0xE0
    then ([], two 0 0xA0 0xBF)
    else if b == 0xED
    then ([], two 13 0x80 0x9F)
    else if ltb b 0xF0
    then ([], two (b - 0xE0) 0x80 0xBF)
    else if b == 0xF0
    then ([], three 0 0x90 0xBF)
    else if ltb b 0xF4
    then ([], three (b - 0xF0) 0x80 0xBF)
    else if b == 0xF4
    then ([], three 4 0x80 0x8F)
    else (replacement ∷ [], idle)

-- A byte that does not continue the sequence ends it with U+FFFD and starts a new one.
restart : ℕ → Text × Pending
unfolding start
restart b = let (out, p) = start b in (replacement ∷ out, p)

feed : Pending → ℕ → Text × Pending
unfolding restart
feed idle b = start b
feed (one acc lo hi) b = if within lo hi b then ((acc * 64 + (b - 0x80)) ∷ [], idle) else restart b
feed (two acc lo hi) b =
    if within lo hi b then ([], one (acc * 64 + (b - 0x80)) 0x80 0xBF) else restart b
feed (three acc lo hi) b =
    if within lo hi b then ([], two (acc * 64 + (b - 0x80)) 0x80 0xBF) else restart b

-- A sequence cut by the end is one U+FFFD.
finish : Pending → Text
finish idle = []
finish _ = replacement ∷ []

decode_from : Pending → Bytes → Text
unfolding feed finish
decode_from p [] = finish p
decode_from p (b ∷ bs) = let (out, q) = feed p b in out ++ decode_from q bs

unfoldable pub decode : Bytes → Text
unfolding decode_from
decode = decode_from idle
