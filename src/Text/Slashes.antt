-- ===== src/Text/Slashes.antt =====
-- s.rstrip("/")
use pyspark_client_wasm.Prelude.{ℕ, zero, suc, ◌≡◌, refl, Bool, [], ◌∷◌, ◌++◌, ◌==◌, Text}
use pyspark_client_wasm.Text.{strip_right}

unfoldable pub is_slash : ℕ → Bool
is_slash c = c == b'/'

-- n slashes
abbrev pub slashes : ℕ → Text
slashes zero = []
slashes (suc n) = b'/' ∷ slashes n

strip_right-slashes : (n : ℕ) → strip_right is_slash (slashes n) ≡ []
unfolding strip_right is_slash
strip_right-slashes zero = refl
strip_right-slashes (suc n) = rw (strip_right-slashes n, strip_right)

pub strip_right-append_slashes :
    (s : Text) (n : ℕ) → strip_right is_slash (s ++ slashes n) ≡ strip_right is_slash s
unfolding strip_right
strip_right-append_slashes [] n = strip_right-slashes n
strip_right-append_slashes (c ∷ s) n = rw (strip_right-append_slashes s n, strip_right)
