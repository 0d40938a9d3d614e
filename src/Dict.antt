-- ===== src/Dict.antt =====
-- Python's dict with str keys: an association list in insertion order.
-- A write to a key that is there keeps its place, as in Python.
use pyspark_client_wasm.Prelude.{
  ◌≡◌, refl, ap, ◌∙◌, Bool, true, false, Option, none, some, List, [], ◌∷◌, arith, if◌then◌else◌,
  Text,
}
use pyspark_client_wasm.Text.{text_eq}
use pyspark_client_wasm.Text.Equality.{text_eq_iff, text_eq_refl}

pub record Dict {ℓ} (V : Type ℓ) : Type ℓ where
  pub entries : List (Text × V)

module _ {ℓ} {V : Type ℓ} where
  lookup : Text → List (Text × V) → Option V
  lookup k [] = none
  lookup k ((j, v) ∷ m) = if text_eq j k then some v else lookup k m

  insert : Text → V → List (Text × V) → List (Text × V)
  insert k v [] = (k, v) ∷ []
  insert k v ((j, old) ∷ later) =
      if text_eq j k then (j, v) ∷ later else (j, old) ∷ insert k v later

  unfoldable pub empty : Dict V
  empty = record { entries = [] }

  -- d.get(k)
  unfoldable pub get : Dict V → Text → Option V
  unfolding lookup
  get d k = lookup k d.entries

  -- d[k] = v
  unfoldable pub put : Text → V → Dict V → Dict V
  unfolding insert
  put k v d = record { entries = insert k v d.entries }

  -- for k, v in pairs: d[k] = v
  unfoldable pub put_all : List (Text × V) → Dict V → Dict V
  unfolding put
  put_all [] d = d
  put_all ((k, v) ∷ kvs) d = put_all kvs (put k v d)

  lookup-insert :
      (k j : Text) (v : V) (m : List (Text × V))
      → lookup j (insert k v m) ≡ (if text_eq k j then some v else lookup j m)
  unfolding lookup insert
  lookup-insert k j v [] = refl
  lookup-insert k j v ((i, w) ∷ m) =
      ground (arith, text_eq_iff k j, text_eq_iff i k, text_eq_iff i j, lookup-insert k j v m)

  pub get-put :
      (d : Dict V) (k j : Text) (v : V)
      → get (put k v d) j ≡ (if text_eq k j then some v else get d j)
  unfolding get put
  get-put d k j v = lookup-insert k j v d.entries

  pub get-put_self : (d : Dict V) (k : Text) (v : V) → get (put k v d) k ≡ some v
  get-put_self d k v = get-put d k k v ∙ rw (text_eq_refl k)

  pub get-put_ne :
      (d : Dict V) (k j : Text) (v : V) → text_eq k j ≡ false → get (put k v d) j ≡ get d j
  get-put_ne d k j v h = get-put d k j v ∙ rw h

pub get-empty {ℓ} : {V : Type ℓ} (k : Text) → get (empty {V = V}) k ≡ none
unfolding get empty
get-empty k = refl

module _ {ℓ} {V : Type ℓ} where
  abbrev pub or_else : Option V → Option V → Option V
  or_else (some v) o = some v
  or_else none o = o

  -- The value that the last pair for the key gives.
  abbrev pub last_value : Text → List (Text × V) → Option V
  last_value k [] = none
  last_value k ((j, v) ∷ kvs) = or_else (last_value k kvs) (if text_eq j k then some v else none)

  -- Of the pairs written in order the last one for a key counts.
  pub get-put_all :
      (kvs : List (Text × V)) (d : Dict V) (k : Text)
      → get (put_all kvs d) k ≡ or_else (last_value k kvs) (get d k)
  unfolding put_all
  get-put_all [] d k = refl
  get-put_all ((j, v) ∷ kvs) d k =
      get-put_all kvs (put j v d) k
      ∙ ap (or_else (last_value k kvs)) (get-put d j k v)
      ∙ regroup (last_value k kvs) (text_eq j k)
    where
      regroup :
          (o : Option V) (b : Bool)
          → or_else o (if b then some v else get d k)
            ≡ or_else (or_else o (if b then some v else none)) (get d k)
      regroup none true = refl
      regroup none false = refl
      regroup (some w) b = refl
