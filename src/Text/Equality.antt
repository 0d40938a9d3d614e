-- ===== src/Text/Equality.antt =====
-- Equality of texts.
use pyspark_client_wasm.Prelude.{◌≡◌, refl, ◌↔◌, true, ◌∷◌, arith, Text}
use pyspark_client_wasm.Text.{text_eq}

pub text_eq_iff : (a b : Text) → (text_eq a b ≡ true) ↔ (a ≡ b)
unfolding text_eq
text_eq_iff (x ∷ a) (y ∷ b) = ground (arith, text_eq_iff a b)
text_eq_iff _ _ = ground arith

pub text_eq_refl : (a : Text) → text_eq a a ≡ true
text_eq_refl a = (text_eq_iff a a).1 refl
