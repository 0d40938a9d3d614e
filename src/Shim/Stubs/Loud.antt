-- ===== src/Shim/Stubs/Loud.antt =====
-- What the attributes of the stub for grpc are, and what calling them does.
use pyspark_client_wasm.Prelude.{
  ◌≡◌, refl, ap, ◌∙◌, ◌⊎◌, inl, Bool, false, ◌||◌, Option, none, some, List, [], ◌∷◌, ◌++◌, map,
  arith, take, drop, Text, ok, err,
}
use pyspark_client_wasm.Text.{codes, text_eq}
use pyspark_client_wasm.Dict.{
  get, put, put_all, empty, or_else, last_value, get-put_ne, get-put_all, get-empty,
}
use pyspark_client_wasm.Shim.Stubs.{
  StatusCode, ok_status, cancelled, unknown, invalid_argument, deadline_exceeded, not_found,
  already_exists, permission_denied, resource_exhausted, failed_precondition, aborted, out_of_range,
  unimplemented, internal, unavailable_status, data_loss, unauthenticated, status_codes,
  status_name, status_value, status_named, named_in, unsupported, Object, function,
  getattr_function, new_module, grpc_own, constructors, unsupported_pair, build_module, shim_error,
  apply, resolve, grpc_attribute,
}

-- Whether a name is among the keys.
abbrev pub has_key : Text → List (Text × Object) → Bool
has_key name [] = false
has_key name ((k, o) ∷ kvs) = text_eq k name || has_key name kvs

last_value-none :
    (name : Text) (kvs : List (Text × Object))
    → has_key name kvs ≡ false
    → last_value name kvs ≡ none
last_value-none name [] h = refl
last_value-none name ((k, o) ∷ kvs) h = ground (arith, last_value-none name kvs)

-- What a list of constructors gives for a name.
last_value-constructors :
    (name : Text) (names : List Text)
    → (last_value name (map unsupported_pair names) ≡ none)
      ⊎ (last_value name (map unsupported_pair names) ≡ some (function unsupported))
last_value-constructors name [] = inl refl
last_value-constructors name (n ∷ names) = ground (arith, last_value-constructors name names)

-- The names that the stub has besides the constructors.
abbrev pub grpc_names : List (Text × Object)
grpc_names =
    (codes "__getattr__", function getattr_function) ∷ (new_module (codes "grpc") ++ grpc_own)

has_key-append :
    (name : Text) (kvs more : List (Text × Object))
    → has_key name (kvs ++ more) ≡ (has_key name kvs || has_key name more)
has_key-append name [] more = refl
has_key-append name ((k, o) ∷ kvs) more = ground (arith, has_key-append name kvs more)

-- A module built from three lists of attributes and one more.
get-built :
    (defaults own pairs : List (Text × Object)) (k name : Text) (o : Object)
    → has_key name ((k, o) ∷ (defaults ++ own)) ≡ false
    → get (put k o (put_all pairs (put_all own (put_all defaults empty)))) name
      ≡ last_value name pairs
get-built defaults own pairs k name o h =
    get-put_ne (put_all pairs (put_all own (put_all defaults empty))) k name o (ground arith)
    ∙ get-put_all pairs (put_all own (put_all defaults empty)) name
    ∙ ap (or_else (last_value name pairs)) (
        get-put_all own (put_all defaults empty) name
        ∙ ap (or_else (last_value name own)) (get-put_all defaults empty name)
        ∙ nothing)
    ∙ or_else-none (last_value name pairs)
  where
    nothing :
        or_else (last_value name own) (or_else (last_value name defaults) (get empty name)) ≡ none
    nothing = ground (
      arith,
      has_key-append name defaults own,
      last_value-none name defaults,
      last_value-none name own,
      get-empty {V = Object} name,
    )

    or_else-none : (v : Option Object) → or_else v none ≡ v
    or_else-none none = refl
    or_else-none (some v) = refl

resolve-unsupported :
    (own extra : Option Object)
    → (own ≡ none) ⊎ (own ≡ some (function unsupported))
    → extra ≡ none
    → resolve own extra ≡ ok (function unsupported)
unfolding resolve apply
resolve-unsupported none none h i = refl
resolve-unsupported none (some o) h i = ground arith
resolve-unsupported (some o) extra h i = ground arith

-- Every name that the stub for grpc does not define as a class, a text or a flag, and that not
-- every module has, is an attribute all the same, the eleven constructors of channels and
-- credentials among them, and calling it raises _ShimError.
pub grpc_attribute-apply :
    (inherited : Text → Option Object) (name : Text)
    → has_key name grpc_names ≡ false
    → inherited name ≡ none
    → (grpc_attribute inherited name ≡ ok (function unsupported))
      × (apply unsupported ≡ err shim_error)
unfolding grpc_attribute apply build_module
grpc_attribute-apply inherited name h i =
    let own =
      get-built (new_module (codes "grpc")) grpc_own (map unsupported_pair constructors)
        (codes "__getattr__") name (function getattr_function) h in
    (
      ap (λ v. resolve v (inherited name)) own
          ∙ resolve-unsupported _ (inherited name) (last_value-constructors name constructors) i,
      refl,
    )

-- StatusCode[c.name] is c for each of the members, and the number in its value is its place among
-- them, so that no two members share a value and none is an alias of another.
pub status_named-status_name :
    (c : StatusCode)
    → (status_named (status_name c) ≡ some c)
      × (take 1 (drop (status_value c).0 status_codes) ≡ c ∷ [])
unfolding status_named status_name status_value text_eq named_in
status_named-status_name ok_status = (refl, refl)
status_named-status_name cancelled = (refl, refl)
status_named-status_name unknown = (refl, refl)
status_named-status_name invalid_argument = (refl, refl)
status_named-status_name deadline_exceeded = (refl, refl)
status_named-status_name not_found = (refl, refl)
status_named-status_name already_exists = (refl, refl)
status_named-status_name permission_denied = (refl, refl)
status_named-status_name resource_exhausted = (refl, refl)
status_named-status_name failed_precondition = (refl, refl)
status_named-status_name aborted = (refl, refl)
status_named-status_name out_of_range = (refl, refl)
status_named-status_name unimplemented = (refl, refl)
status_named-status_name internal = (refl, refl)
status_named-status_name unavailable_status = (refl, refl)
status_named-status_name data_loss = (refl, refl)
status_named-status_name unauthenticated = (refl, refl)
