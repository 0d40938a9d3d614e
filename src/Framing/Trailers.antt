-- ===== src/Framing/Trailers.antt =====
-- The trailer block: parse_trailers reads what encode_trailers wrote.
use pyspark_client_wasm.Prelude.{
  ℕ, ◌<◌, ◌≡◌, refl, ap, ◌∙◌, ◌≢◌, false, [], ◌∷◌, ◌++◌, append_assoc, arith, All, Bytes, Text, ok,
  stop, emit, >>=-eq-ok,
}
use pyspark_client_wasm.Dict.{Dict, empty, put}
use pyspark_client_wasm.Framing.{
  crlf, Frame, trailer_flag, encode_message, trailer_text, encode_trailers, parse_line, parse_lines,
  parse_trailers, iter_frames,
}
use pyspark_client_wasm.Framing.Iterate.Encode.{encode_frames-one, iter_frames-encode}
use pyspark_client_wasm.Text.{
  Unicode, codes, is_space, strip_left, strip_right, strip, has_char, to_lf, split, to_lower,
}
use pyspark_client_wasm.Text.Decimal.{show, IsDigit, show-All, show-ne-nil}
use pyspark_client_wasm.Text.Lines.{
  Lacks, split-append, partition-append, has_char-append, to_lf-append, Lacks-append,
}
use pyspark_client_wasm.Text.Trim.{
  IsTrimmed, IsKept, strip_left-kept, strip_right-All, strip_right-append, strip-IsTrimmed,
}
use pyspark_client_wasm.Text.Utf8
use pyspark_client_wasm.Text.Utf8.RoundTrip.{decode-encode}

-- Digits are no white space, and no separator.
digits-IsTrimmed : (s : Text) → All IsDigit s → IsTrimmed s
digits-IsTrimmed [] h = unfold strip_left strip_right in (refl, refl)
digits-IsTrimmed (c ∷ s) h =
    (strip_left-kept is_space c s (kept c h.0), strip_right-All is_space (c ∷ s) (all (c ∷ s) h))
  where
    kept : (c : ℕ) → IsDigit c → is_space c ≡ false
    kept c h = unfold is_space in ground arith

    all : (s : Text) → All IsDigit s → All (IsKept is_space) s
    all [] h = tt
    all (d ∷ s) h = (kept d h.0, all s h.1)

digits-Lacks : (c : ℕ) (s : Text) → c < b'0' → All IsDigit s → Lacks c s
unfolding has_char
digits-Lacks c [] h k = refl
digits-Lacks c (d ∷ s) h k = ground (arith, digits-Lacks c s h k.1)

module _ (u : Unicode) where
  -- A field `key:value` whose parts need no stripping.
  pub parse_line-field :
      (out : Dict Text) (k : ℕ) (ks value : Text)
      → is_space k ≡ false
      → strip_right is_space (k ∷ ks) ≡ k ∷ ks
      → Lacks b':' (k ∷ ks)
      → IsTrimmed value
      → value ≢ []
      → parse_line u out ((k ∷ ks) ++ (b':' ∷ value)) ≡ put (to_lower u (k ∷ ks)) value out
  unfolding parse_line
  parse_line-field out k ks value s r l t n =
      let key : Text = k ∷ ks in
      let line : Text = key ++ (b':' ∷ value) in
      let right = strip_right-append is_space (key ++ (b':' ∷ [])) value t.1 n in
      let kept : strip line ≡ line =
        strip-IsTrimmed line
          (strip_left-kept is_space k _ s, rw (append_assoc key (b':' ∷ []) value) at right) in
      let cut = partition-append b':' key value l in
      rw kept (
        rw cut (
          rw (has_char-append b':' key value) (
            rw (strip-IsTrimmed value t)
              (rw (strip-IsTrimmed key (strip_left-kept is_space k ks s, r)) refl))))

  parse_line-blank : (out : Dict Text) → parse_line u out [] ≡ out
  unfolding parse_line has_char strip
  parse_line-blank out = refl

  -- The line for the status, and the line for the message.
  parse_line_status :
      (out : Dict Text) (n : ℕ)
      → parse_line u out (codes "grpc-status:" ++ show n) ≡ put (codes "grpc-status") (show n) out
  parse_line_status out n =
      parse_line-field out b'g' (codes "rpc-status") (show n) (unfold is_space in refl)
        (unfold strip_right is_space in refl) (unfold has_char in refl)
        (digits-IsTrimmed (show n) (show-All n)) (show-ne-nil n)
      ∙ ap (λ k. put k (show n) out) (unfold to_lower in refl)

  parse_line_message :
      (out : Dict Text) (m : Text)
      → IsTrimmed m
      → m ≢ []
      → parse_line u out (codes "grpc-message:" ++ m) ≡ put (codes "grpc-message") m out
  parse_line_message out m t n =
      parse_line-field out b'g' (codes "rpc-message") m (unfold is_space in refl)
        (unfold strip_right is_space in refl) (unfold has_char in refl) t n
      ∙ ap (λ k. put k m out) (unfold to_lower in refl)

split-one : (a : Text) → Lacks b'\n' a → split b'\n' (to_lf (a ++ crlf)) ≡ a ∷ [] ∷ []
split-one a h =
    rw (to_lf-append a [] h) (rw (split-append b'\n' a (to_lf []) h) (unfold to_lf split in refl))

split-two :
    (a b : Text)
    → Lacks b'\n' a
    → Lacks b'\n' b
    → split b'\n' (to_lf ((a ++ (crlf ++ b)) ++ crlf)) ≡ a ∷ b ∷ [] ∷ []
split-two a b h k = rw (append_assoc a (crlf ++ b) crlf) (
    rw (to_lf-append a (b ++ crlf) h)
      (rw (split-append b'\n' a (to_lf (b ++ crlf)) h) (ap (◌∷◌ a) (split-one b k))))

-- What parse_trailers makes of the block for a status and a message.
abbrev pub trailers_of : ℕ → Text → Dict Text
trailers_of n [] = put (codes "grpc-status") (show n) empty
trailers_of n m = put (codes "grpc-message") m (put (codes "grpc-status") (show n) empty)

-- A message that the block can carry: no newline in it, and nothing that str.strip takes off.
pub record IsMessage (m : Text) : Type 0 where
  pub one_line : Lacks b'\n' m
  pub trimmed : IsTrimmed m

status_line-Lacks : (n : ℕ) → Lacks b'\n' (codes "grpc-status:" ++ show n)
status_line-Lacks n =
    Lacks-append b'\n' (codes "grpc-status:") (show n) (unfold has_char in refl)
      (digits-Lacks b'\n' (show n) (omega arith) (show-All n))

parse_lines-trailer_text :
    (u : Unicode) (n : ℕ) (m : Text)
    → IsMessage m
    → parse_lines u empty (split b'\n' (to_lf (trailer_text n m))) ≡ trailers_of n m
unfolding trailer_text parse_lines
parse_lines-trailer_text u n [] ok_m =
    rw (split-one _ (status_line-Lacks n)) (rw (parse_line_status u empty n) (parse_line-blank u _))
parse_lines-trailer_text u n (c ∷ m) ok_m =
    let line : Text = codes "grpc-message:" ++ (c ∷ m) in
    let lacks =
      Lacks-append b'\n' (codes "grpc-message:") (c ∷ m) (unfold has_char in refl) ok_m.one_line in
    rw (split-two (codes "grpc-status:" ++ show n) line (status_line-Lacks n) lacks) (
      rw (parse_line_status u empty n) (
        rw (parse_line_message u (put (codes "grpc-status") (show n) empty) (c ∷ m) ok_m.trimmed cc)
          (parse_line-blank u _)))

pub trailers_parts :
    (u : Unicode) (n : ℕ) (m : Text) {bs : Bytes}
    → IsMessage m
    → encode_trailers n m ≡ ok bs
    → (body : Bytes) × (encode_message body trailer_flag ≡ ok bs)
      × (parse_trailers u body ≡ trailers_of n m)
unfolding encode_trailers
trailers_parts u n m ok_m e =
    let (body, eb, e') =
      >>=-eq-ok (Utf8.encode (trailer_text n m)) (λ b. encode_message b trailer_flag) e in
    let read : parse_trailers u body ≡ trailers_of n m =
      unfold parse_trailers in
      ap (λ (t : Text). parse_lines u empty (split b'\n' (to_lf t)))
        (decode-encode (trailer_text n m) body eb)
      ∙ parse_lines-trailer_text u n m ok_m in
    (body, e', read)

-- The bytes of encode_trailers are one trailer frame, whose payload parse_trailers reads as the
-- status and, where it is not empty, the message, for a message that has no newline in it and no
-- white space around it.
pub parse_trailers-encode_trailers :
    (u : Unicode) (n : ℕ) (m : Text) {bs : Bytes}
    → IsMessage m
    → encode_trailers n m ≡ ok bs
    → (body : Bytes) × (iter_frames bs
        ≡ emit (record { flags = trailer_flag; payload = body }) stop)
      × (parse_trailers u body ≡ trailers_of n m)
parse_trailers-encode_trailers u n m {bs} ok_m e =
    let (body, framed, read) = trailers_parts u n m ok_m e in
    let f : Frame = record { flags = trailer_flag; payload = body } in
    (body, iter_frames-encode (f ∷ []) bs (omega arith) (encode_frames-one f framed), read)
