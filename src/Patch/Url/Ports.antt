-- ===== src/Patch/Url/Ports.antt =====
-- The host and the port of a shorthand.
use pyspark_client_wasm.Prelude.{
  ℕ, ◌≡◌, refl, sym, ap, ◌∙◌, Bool, true, false, Option, none, some, [], ◌∷◌, ◌++◌, append-nil,
  append_assoc, arith, ◌==◌, if◌then◌else◌, Text,
}
use pyspark_client_wasm.Text.{codes, has_char, strip_right, starts_with}
use pyspark_client_wasm.Text.Trim.{strip_right-append}
use pyspark_client_wasm.Text.Lines.{Lacks}
use pyspark_client_wasm.Text.Slashes.{is_slash, slashes, strip_right-append_slashes}
use pyspark_client_wasm.Patch.Url.{
  after_scheme, rsplit, default_port, host_port, web_params, canonical, normalize_web_url,
}
use pyspark_client_wasm.Patch.Url.Normal.{normalize_web_url-rewrite}

rsplit-none : (c : ℕ) (s : Text) → Lacks c s → rsplit c s ≡ none
unfolding rsplit has_char
rsplit-none c [] h = refl
rsplit-none c (d ∷ s) h =
    let t : (c == d) ≡ false = ground arith in rw (rsplit-none c s (ground arith), rsplit) (rw t)

rsplit-append : (c : ℕ) (s t : Text) → Lacks c t → rsplit c (s ++ (c ∷ t)) ≡ some (s, t)
unfolding rsplit
rsplit-append c [] t h = rw (rsplit-none c t h, rsplit) (ground arith)
rsplit-append c (d ∷ s) t h = rw (rsplit-append c s t h, rsplit)

strip_right-colon :
    (port : Text)
    → strip_right is_slash port ≡ port
    → strip_right is_slash (b':' ∷ port) ≡ b':' ∷ port
unfolding strip_right is_slash
strip_right-colon [] kept = refl
strip_right-colon (c ∷ port) kept = rw (kept, strip_right)

-- A port that is given in the URL, as it stands there.
abbrev pub port_suffix : Option Text → Text
port_suffix none = []
port_suffix (some port) = b':' ∷ port

abbrev pub scheme : Bool → Text
scheme true = codes "https://"
scheme false = codes "http://"

-- No colon but the one in front of the port, and no slash at the end.
abbrev pub IsAuthority : Text → Option Text → Type 0
IsAuthority host none = Lacks b':' host × (strip_right is_slash host ≡ host)
IsAuthority host (some port) = Lacks b':' port × (strip_right is_slash port ≡ port)

abbrev pub or_default : Bool → Option Text → Text
or_default true none = codes "443"
or_default false none = codes "80"
or_default secure (some port) = port

-- What is left of the text behind the scheme.
strip_right-port_suffix :
    (host : Text) (port : Option Text) (n : ℕ)
    → IsAuthority host port
    → strip_right is_slash (host ++ (port_suffix port ++ slashes n)) ≡ host ++ port_suffix port
strip_right-port_suffix host none n (lacks, kept) =
    strip_right-append_slashes host n ∙ kept ∙ sym (append-nil host)
strip_right-port_suffix host (some port) n (lacks, kept) =
    ap (strip_right is_slash) (sym (append_assoc host (b':' ∷ port) (slashes n)))
    ∙ strip_right-append_slashes (host ++ (b':' ∷ port)) n
    ∙ strip_right-append is_slash host (b':' ∷ port) (strip_right-colon port kept) (cc)

default-or_default :
    (secure : Bool) (host : Text)
    → Path (Text × Text) (host, default_port secure) (host, or_default secure none)
unfolding default_port
default-or_default true host = refl
default-or_default false host = refl

host_port-port_suffix :
    (secure : Bool) (host : Text) (port : Option Text)
    → IsAuthority host port
    → host_port secure (host ++ port_suffix port) ≡ (host, or_default secure port)
unfolding host_port
host_port-port_suffix secure host none (lacks, kept) =
    ap (host_port secure) (append-nil host)
    ∙ rw (rsplit-none b':' host lacks, host_port) (default-or_default secure host)
host_port-port_suffix secure host (some port) (lacks, kept) =
    rw (rsplit-append b':' host port lacks, host_port)

-- The URL https://host, http://host, https://host:port or http://host:port, with any number of
-- slashes behind it, is rewritten to sc://host:port/;transport=grpcweb, with ;use_ssl=true behind
-- it for https; a missing port is 443 for https and 80 for http. The port has no colon, a host
-- without a port has none either, and neither ends with a slash.
pub normalize_web_url-authority :
    (secure : Bool) (host : Text) (port : Option Text) (n : ℕ)
    → IsAuthority host port
    → normalize_web_url (scheme secure ++ (host ++ (port_suffix port ++ slashes n)))
      ≡ some (
          codes "sc://"
          ++ (host
              ++ (b':'
                  ∷ (or_default secure port
                      ++ (codes "/;transport=grpcweb"
                          ++ (if secure then codes ";use_ssl=true" else []))))))
unfolding starts_with
normalize_web_url-authority true host port n h =
    let rest = host ++ (port_suffix port ++ slashes n) in
    let left = strip_right-port_suffix host port n h in
    normalize_web_url-rewrite (codes "https://" ++ rest) rest refl (unfold after_scheme in refl)
    ∙ ap (λ (hp : Text × Text). some (canonical true hp))
        (ap (host_port true) left ∙ host_port-port_suffix true host port h)
    ∙ unfold canonical web_params in refl
normalize_web_url-authority false host port n h =
    let rest = host ++ (port_suffix port ++ slashes n) in
    let left = strip_right-port_suffix host port n h in
    normalize_web_url-rewrite (codes "http://" ++ rest) rest refl (unfold after_scheme in refl)
    ∙ ap (λ (hp : Text × Text). some (canonical false hp))
        (ap (host_port false) left ∙ host_port-port_suffix false host port h)
    ∙ unfold canonical web_params in refl
