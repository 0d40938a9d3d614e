-- ===== src/Sab/Memory.antt =====
-- The shared memory of worker/sab_channel.py and worker/bridge.js: the data region, a Uint8Array,
-- and the words of the control array, an Int32Array. A byte is a number below 256, and a control
-- word is its bit pattern, a number below 2 ^ 32.
pub mod Layout
use pyspark_client_wasm.Prelude.{
  ℕ, suc, ◌+◌, ◌-◌, ◌*◌, ◌/◌, ◌%◌, ◌^◌, List, [], ◌∷◌, ◌++◌, ltb, if◌then◌else◌, length, take, drop,
  Bytes, Text, ℤ, pos, negsuc, foreign, Result, ok, err, ◌>>=◌,
}
use pyspark_client_wasm.Text.{codes}

-- The words are STATE, LENGTH, STATUS, SEQ, GEN and CAP.
pub record Shared : Type 0 where
  pub region : Bytes
  pub state : ℕ
  pub size : ℕ
  pub status : ℕ
  pub seq : ℕ
  pub gen : ℕ
  pub cap : ℕ

-- What STATE holds.
abbrev pub s_idle : ℕ
s_idle = 0

abbrev pub s_req_ready : ℕ
s_req_ready = 1

abbrev pub s_resp_chunk : ℕ
s_resp_chunk = 2

abbrev pub s_resp_end : ℕ
s_resp_end = 3

abbrev pub s_resp_error : ℕ
s_resp_error = 4

abbrev pub s_chunk_ack : ℕ
s_chunk_ack = 5

abbrev pub meta_zone : ℕ
meta_zone = 4096

-- A store keeps the low 32 bits, and a load reads them as a signed number.
abbrev pub store32 : ℕ → ℕ
store32 n = n % 2 ^ 32

abbrev pub load32 : ℕ → ℤ
load32 w = if ltb w (2 ^ 31) then pos w else negsuc (2 ^ 32 - w - 1)

-- region.set(bs, off): refused where the bytes do not fit
pub write_at : ℕ → Bytes → Bytes → Result Bytes
write_at off bs region =
    if ltb (length region) (off + length bs)
    then err (foreign (codes "RangeError"))
    else ok (take off region ++ (bs ++ drop (off + length bs) region))

-- The bytes that _put_u32 writes. `v & 0xff` and `v >> 8` are `v % 256` and `v / 256`.
unfoldable pub u32_bytes : ℕ → Bytes
u32_bytes v = v % 256 ∷ v / 256 % 256 ∷ v / 65536 % 256 ∷ v / 16777216 % 256 ∷ []

-- One piece behind the other, as in `off = self._put_bytes(off, b)`: where they end, and the
-- region.
pub put_all : ℕ → List Bytes → Bytes → Result (ℕ × Bytes)
unfolding write_at
put_all off [] region = ok (off, region)
put_all off (bs ∷ pieces) region = do
  written ← write_at off bs region
  put_all (off + length bs) pieces written

-- The four bytes as a number: they are below 256, so that `|` of the shifted bytes is their sum.
pub u32_of : Bytes → Result ℕ
u32_of (a ∷ b ∷ c ∷ d ∷ _) = ok (a + b * 256 + c * 65536 + d * 16777216)
u32_of _ = err (foreign (codes "IndexError"))

-- _get_u32, and the same in bridge.js where the four bytes are in the region
pub get_u32 : ℕ → Bytes → Result ℕ
unfolding u32_of
get_u32 off region = u32_of (drop off region)

-- An index of JavaScript's subarray counts from the end if it is negative.
pub clamp_index : ℤ → ℕ → ℕ
clamp_index (pos n) size = n
clamp_index (negsuc n) size = size - suc n

-- region.subarray(begin, end)
pub subarray : ℕ → ℤ → Bytes → Bytes
unfolding clamp_index
subarray begin end region = take (clamp_index end (length region) - begin) (drop begin region)
