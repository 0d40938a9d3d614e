-- ===== src/Sab/Memory/Layout.antt =====
-- What the pieces of a region are once they are written one behind the other.
use pyspark_client_wasm.Prelude.{
  ℕ, ◌+◌, ◌-◌, ◌^◌, ◌≤◌, ◌<◌, ◌≡◌, refl, sym, ap, ◌∙◌, inl, inr, false, List, [], ◌∷◌, ◌++◌,
  append_assoc, arith, ltb, ltb_of_le, le_of_ltb, Bool-cases, length, take, drop, join,
  length-append, length-take, length-drop, take-append_of_eq, drop-append_of_eq, drop-drop, Bytes,
  Exn, pos, foreign, Result, ok, err,
}
use pyspark_client_wasm.Text.{codes}
use pyspark_client_wasm.Sab.Memory.{
  store32, load32, write_at, u32_bytes, put_all, u32_of, get_u32, clamp_index, subarray,
}

ok_pair :
    {m n : ℕ} {xs ys : Bytes}
    → m ≡ n
    → xs ≡ ys
    → Path (Result (ℕ × Bytes)) (ok (m, xs)) (ok (n, ys))
ok_pair e k = λ i. ok (e i, k i)

-- A write behind a prefix.
write_at-append :
    (pre bs old : Bytes) (off : ℕ)
    → off ≡ length pre
    → length bs ≤ length old
    → write_at off bs (pre ++ old) ≡ ok (pre ++ (bs ++ drop (length bs) old))
unfolding write_at
write_at-append pre bs old off e h =
    let fits : ltb (length (pre ++ old)) (off + length bs) ≡ false =
      ltb_of_le _ _ (omega (arith, length-append pre old)) in
    let skip : drop (off + length bs) (pre ++ old) ≡ drop (length bs) old =
      sym (drop-drop off (length bs) (pre ++ old))
      ∙ ap (λ (t : Bytes). drop (length bs) t) (drop-append_of_eq off pre old e) in
    rw fits (
      ap ok (
        ap (λ (t : Bytes). t ++ (bs ++ drop (off + length bs) (pre ++ old)))
          (take-append_of_eq off pre old e)
        ∙ ap (λ (t : Bytes). pre ++ (bs ++ t)) skip))

-- Where the pieces fit, they stand one behind the other, and nothing else changes.
put_all-append :
    (pieces : List Bytes) (pre old : Bytes) (off : ℕ)
    → off ≡ length pre
    → length (join pieces) ≤ length old
    → put_all off pieces (pre ++ old)
      ≡ ok (off + length (join pieces), pre ++ (join pieces ++ drop (length (join pieces)) old))
unfolding put_all
put_all-append [] pre old off e h = ap (λ (n : ℕ). ok (n, pre ++ old)) (omega arith)
put_all-append (bs ∷ pieces) pre old off e h =
    let n : length (bs ++ join pieces) ≡ length bs + length (join pieces) =
      length-append bs (join pieces) in
    let rest = drop (length bs) old in
    let fits : length (join pieces) ≤ length rest = omega (arith, length-drop (length bs) old) in
    let off' : off + length bs ≡ length (pre ++ bs) = omega (arith, length-append pre bs) in
    let moved : pre ++ (bs ++ rest) ≡ (pre ++ bs) ++ rest = sym (append_assoc pre bs rest) in
    let skip : drop (length (join pieces)) rest ≡ drop (length (bs ++ join pieces)) old =
      drop-drop (length bs) (length (join pieces)) old ∙ ap (λ (k : ℕ). drop k old) (sym n) in
    rw (write_at-append pre bs old off e (omega arith)) (
      ap (put_all (off + length bs) pieces) moved
      ∙ put_all-append pieces (pre ++ bs) rest (off + length bs) off' fits
      ∙ ap
          (λ (t : Bytes).
            ok (off + length bs + length (join pieces), (pre ++ bs) ++ (join pieces ++ t)))
          skip
      ∙ ok_pair (omega (arith, n)) (
          append_assoc pre bs (join pieces ++ drop (length (bs ++ join pieces)) old)
          ∙ ap (◌++◌ pre)
              (sym (append_assoc bs (join pieces) (drop (length (bs ++ join pieces)) old)))))

pub put_all_lem :
    (pieces : List Bytes) (region : Bytes)
    → length (join pieces) ≤ length region
    → put_all 0 pieces region
      ≡ ok (length (join pieces), join pieces ++ drop (length (join pieces)) region)
put_all_lem pieces region h = put_all-append pieces [] region 0 refl h ∙ ok_pair (omega arith) refl

pub length-u32_bytes : (v : ℕ) → length (u32_bytes v) ≡ 4
unfolding u32_bytes
length-u32_bytes v = refl

pub u32_of-u32_bytes : (v : ℕ) (rest : Bytes) → v < 2 ^ 32 → u32_of (u32_bytes v ++ rest) ≡ ok v
unfolding u32_of u32_bytes
u32_of-u32_bytes v rest h = ap ok (omega arith)

pub get_u32-append :
    (pre rest : Bytes) (v off : ℕ)
    → off ≡ length pre
    → v < 2 ^ 32
    → get_u32 off (pre ++ (u32_bytes v ++ rest)) ≡ ok v
unfolding get_u32
get_u32-append pre rest v off e h =
    ap u32_of (drop-append_of_eq off pre (u32_bytes v ++ rest) e) ∙ u32_of-u32_bytes v rest h

-- The part of a region that stands between two others.
pub subarray-append :
    (pre part rest : Bytes) (begin end : ℕ)
    → begin ≡ length pre
    → end ≡ length pre + length part
    → subarray begin (pos end) (pre ++ (part ++ rest)) ≡ part
unfolding subarray clamp_index
subarray-append pre part rest begin end e k =
    ap (take (end - begin)) (drop-append_of_eq begin pre (part ++ rest) e)
    ∙ take-append_of_eq (end - begin) part rest (omega arith)

pub load32-store32 : (n : ℕ) → n < 2 ^ 31 → load32 (store32 n) ≡ pos n
load32-store32 n h = ground arith

length-write_at :
    (off : ℕ) (bs region : Bytes)
    → off + length bs ≤ length region
    → (out : Bytes) × (write_at off bs region ≡ ok out) × (length out ≡ length region)
unfolding write_at
length-write_at off bs region h = (
  take off region ++ (bs ++ drop (off + length bs) region),
  rw (ltb_of_le (length region) (off + length bs) h),
  omega (
    arith,
    h,
    length-append (take off region) (bs ++ drop (off + length bs) region),
    length-append bs (drop (off + length bs) region),
    length-take off region,
    length-drop (off + length bs) region,
  ),
)

-- Where the pieces do not fit, they are refused.
pub put_all-err :
    (pieces : List Bytes) (off : ℕ) (region : Bytes)
    → off ≤ length region
    → length region < off + length (join pieces)
    → (e : Exn) × (put_all off pieces region ≡ err e)
unfolding put_all
put_all-err [] off region k h = absurd (omega (arith, k, h))
put_all-err (bs ∷ pieces) off region k h =
    elim (Bool-cases (ltb (length region) (off + length bs))) [
      | inl l ↦ (foreign (codes "RangeError"), unfold write_at in rw (l))
      | inr l ↦
          let (out, w, n) = length-write_at off bs region (le_of_ltb _ _ l) in
          let (e, rest) =
            put_all-err pieces (off + length bs) out (omega (arith, n, le_of_ltb _ _ l))
              (omega (arith, n, h, length-append bs (join pieces))) in
          (e, rw w rest)
    ]
