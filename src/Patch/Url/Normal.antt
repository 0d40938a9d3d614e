-- ===== src/Patch/Url/Normal.antt =====
-- The normal form of a web URL.
use pyspark_client_wasm.Prelude.{
  ℕ, ◌≡◌, refl, ap, ◌∙◌, inl, inr, Bool, true, false, some, [], ◌∷◌, ◌++◌, append_assoc, arith,
  Bool-cases, drop, Text,
}
use pyspark_client_wasm.Text.{Unicode, codes, is_space, strip_left, strip_right, starts_with}
use pyspark_client_wasm.Text.Slashes.{is_slash}
use pyspark_client_wasm.Patch.Url.{
  is_word_char, ends_word, selects_grpcweb, matches_transport, search_transport, is_shorthand,
  is_web_url, after_scheme, host_port, web_params, canonical, rewrite, normalize_web_url,
}

starts_with-canonical :
    (secure : Bool) (hp : Text × Text) → starts_with (codes "sc://") (canonical secure hp) ≡ true
unfolding canonical starts_with
starts_with-canonical secure (host, port) = refl

-- A text with a colon and two slashes somewhere.
after_scheme-some :
    (c : ℕ) (s rest : Text)
    → after_scheme s ≡ some rest
    → (r : Text) × (after_scheme (c ∷ s) ≡ some r)
unfolding after_scheme
after_scheme-some c s rest e = elim (Bool-cases (starts_with (codes "://") (c ∷ s))) [
  | inl m ↦ (drop 3 (c ∷ s), rw m)
  | inr m ↦ (rest, rw m e)
]

after_scheme-append :
    (a rest : Text) → (r : Text) × (after_scheme (a ++ (codes "://" ++ rest)) ≡ some r)
after_scheme-append [] rest = (rest, unfold after_scheme starts_with in refl)
after_scheme-append (c ∷ a) rest =
    let (r, e) = after_scheme-append a rest in after_scheme-some c (a ++ (codes "://" ++ rest)) r e

-- A text that starts with another is that text with a rest.
starts_with-append : (p s : Text) → starts_with p s ≡ true → (rest : Text) × (s ≡ p ++ rest)
unfolding starts_with
starts_with-append [] s h = (s, refl)
starts_with-append (c ∷ p) [] h = absurd (ground arith)
starts_with-append (c ∷ p) (d ∷ s) h =
    let (rest, e) = starts_with-append p s (ground arith) in
    (rest, ap (λ (t : Text). d ∷ t) e ∙ ap (λ (x : ℕ). x ∷ (p ++ rest)) (ground arith))

after_scheme-starts_with :
    (a url : Text)
    → starts_with (a ++ codes "://") url ≡ true
    → (r : Text) × (after_scheme url ≡ some r)
after_scheme-starts_with a url h =
    let (rest, e) = starts_with-append (a ++ codes "://") url h in
    let (r, k) = after_scheme-append a rest in
    (r, ap after_scheme (e ∙ append_assoc a (codes "://") rest) ∙ k)

after_scheme-shorthand :
    (url : Text) → is_shorthand url ≡ true → (r : Text) × (after_scheme url ≡ some r)
unfolding is_shorthand
after_scheme-shorthand url h = elim (Bool-cases (starts_with (codes "https://") url)) [
  | inl s ↦ after_scheme-starts_with (codes "https") url s
  | inr s ↦ after_scheme-starts_with (codes "http") url (ground arith)
]

pub normalize_web_url-rewrite :
    (url rest : Text)
    → starts_with (codes "sc://") url ≡ false
    → after_scheme url ≡ some rest
    → normalize_web_url url ≡ (
        let secure = starts_with (codes "https://") url in
        some (canonical secure (host_port secure (strip_right is_slash rest))))
unfolding normalize_web_url rewrite
normalize_web_url-rewrite url rest s e = rw s (rw (e, rewrite))

module _ (u : Unicode) where
  search_transport-append :
      (a s : Text) → search_transport u s ≡ true → search_transport u (a ++ s) ≡ true
  unfolding search_transport
  search_transport-append [] s h = h
  search_transport-append (c ∷ a) s h = ground (arith, search_transport-append a s)

  search_transport-web_params : (secure : Bool) → search_transport u (web_params secure) ≡ true
  unfolding search_transport matches_transport web_params selects_grpcweb ends_word is_word_char
      starts_with strip_left is_space
  search_transport-web_params true = refl
  search_transport-web_params false = refl

  search_transport-canonical :
      (secure : Bool) (hp : Text × Text) → search_transport u (canonical secure hp) ≡ true
  unfolding canonical
  search_transport-canonical secure (host, port) =
      search_transport-append (codes "sc://")
        (host ++ (b':' ∷ (port ++ (b'/' ∷ web_params secure))))
        (search_transport-append host (b':' ∷ (port ++ (b'/' ∷ web_params secure))) (
          search_transport-append (b':' ∷ []) (port ++ (b'/' ∷ web_params secure)) (
            search_transport-append port (b'/' ∷ web_params secure) (
              search_transport-append (b'/' ∷ []) (web_params secure)
                (search_transport-web_params secure)))))

  is_web_url-search :
      (url : Text)
      → starts_with (codes "sc://") url ≡ true
      → search_transport u url ≡ true
      → is_web_url u url ≡ true
  unfolding is_web_url
  is_web_url-search url s t = ground arith

  normalize_web_url-sc :
      (url : Text) → starts_with (codes "sc://") url ≡ true → normalize_web_url url ≡ some url
  unfolding normalize_web_url
  normalize_web_url-sc url s = rw s

  -- What holds of an output: it selects the web transport and is its own normal form.
  abbrev pub IsNormal : Text → Type 0
  IsNormal url =
      (starts_with (codes "sc://") url ≡ true)
      × (is_web_url u url ≡ true)
      × (normalize_web_url url ≡ some url)

  canonical-IsNormal : (secure : Bool) (hp : Text × Text) → IsNormal (canonical secure hp)
  canonical-IsNormal secure hp =
      let sc = starts_with-canonical secure hp in
      (
        sc,
        is_web_url-search (canonical secure hp) sc (search_transport-canonical secure hp),
        normalize_web_url-sc (canonical secure hp) sc,
      )

  abbrev pub Normalizes : Text → Type 0
  Normalizes url = (out : Text) × (normalize_web_url url ≡ some out) × IsNormal out

  rewrite-Normalizes :
      (url : Text)
      → starts_with (codes "sc://") url ≡ false
      → is_shorthand url ≡ true
      → Normalizes url
  rewrite-Normalizes url s h =
      let (rest, e) = after_scheme-shorthand url h in
      let secure = starts_with (codes "https://") url in
      let hp = host_port secure (strip_right is_slash rest) in
      (canonical secure hp, normalize_web_url-rewrite url rest s e, canonical-IsNormal secure hp)

  -- Every URL that selects the web transport has a normal form: it starts with sc://, selects the
  -- web transport again, and is its own normal form, so that normalising twice is normalising once
  -- and the IndexError of a URL without :// is not met.
  pub normalize_web_url-Normalizes : (url : Text) → is_web_url u url ≡ true → Normalizes url
  unfolding is_web_url
  normalize_web_url-Normalizes url w = elim (Bool-cases (starts_with (codes "sc://") url)) [
    | inl s ↦ (url, normalize_web_url-sc url s, (s, w, normalize_web_url-sc url s))
    | inr s ↦ rewrite-Normalizes url s (ground arith)
  ]
