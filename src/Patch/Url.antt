-- ===== src/Patch/Url.antt =====
-- _is_web_url and _normalize_web_url: which connection strings select the web transport, and the
-- canonical form of the http(s) shorthands.
pub mod Normal
pub mod Ports
use pyspark_client_wasm.Prelude.{
  ℕ, Bool, true, not, ◌&&◌, ◌||◌, Option, none, some, [], ◌∷◌, ◌++◌, ltb, ◌==◌, if◌then◌else◌,
  within, drop, Text,
}
use pyspark_client_wasm.Text.Slashes.{is_slash}
use pyspark_client_wasm.Text.{Unicode, codes, is_space, strip_left, strip_right, starts_with}

-- the characters that the regular expression's \w takes
is_word_char : Unicode → ℕ → Bool
is_word_char u c =
    if ltb c 128
    then within b'a' b'z' c || within b'A' b'Z' c || within b'0' b'9' c || c == b'_'
    else u.is_word c

-- \b behind a word character
ends_word : Unicode → Text → Bool
ends_word u [] = true
ends_word u (c ∷ s) = not (is_word_char u c)

-- \s*grpcweb\b
selects_grpcweb : Unicode → Text → Bool
selects_grpcweb u s = starts_with (codes "grpcweb") s && ends_word u (drop 7 s)

-- ;transport=\s*grpcweb\b, at the front of the text
matches_transport : Unicode → Text → Bool
unfolding selects_grpcweb ends_word is_word_char
matches_transport u s =
    starts_with (codes ";transport=") s && selects_grpcweb u (strip_left is_space (drop 11 s))

-- re.search: the pattern matches somewhere in the text.
search_transport : Unicode → Text → Bool
unfolding matches_transport
search_transport u [] = matches_transport u []
search_transport u (c ∷ s) = matches_transport u (c ∷ s) || search_transport u s

unfoldable pub is_shorthand : Text → Bool
is_shorthand url = starts_with (codes "https://") url || starts_with (codes "http://") url

unfoldable pub is_web_url : Unicode → Text → Bool
unfolding is_shorthand search_transport
is_web_url u url = is_shorthand url || (starts_with (codes "sc://") url && search_transport u url)

-- url.split("://", 1)[1], none where Python raises an IndexError
pub after_scheme : Text → Option Text
after_scheme [] = none
after_scheme (c ∷ s) =
    let rest = after_scheme s in
    if starts_with (codes "://") (c ∷ s) then some (drop 3 (c ∷ s)) else rest

-- s.rsplit(c, 1), none where c is not in s
rsplit : ℕ → Text → Option (Text × Text)
rsplit c [] = none
rsplit c (d ∷ s) = elim (rsplit c s) [
  | some (before, behind) ↦ some (d ∷ before, behind)
  | none ↦ if c == d then some ([], s) else none
]

default_port : Bool → Text
default_port secure = if secure then codes "443" else codes "80"

pub host_port : Bool → Text → Text × Text
unfolding rsplit default_port
host_port secure rest = elim (rsplit b':' rest) [
  | some hp ↦ hp
  | none ↦ (rest, default_port secure)
]

web_params : Bool → Text
web_params secure = codes ";transport=grpcweb" ++ (if secure then codes ";use_ssl=true" else [])

pub canonical : Bool → Text × Text → Text
unfolding web_params
canonical secure (host, port) =
    codes "sc://" ++ (host ++ (b':' ∷ (port ++ (b'/' ∷ web_params secure))))

rewrite : Text → Option Text
unfolding after_scheme host_port canonical
rewrite url = elim (after_scheme url) [
  | none ↦ none
  | some rest ↦
      let secure = starts_with (codes "https://") url in
      some (canonical secure (host_port secure (strip_right is_slash rest)))
]

-- none where Python raises an IndexError
unfoldable pub normalize_web_url : Text → Option Text
unfolding rewrite
normalize_web_url url = if starts_with (codes "sc://") url then some url else rewrite url
