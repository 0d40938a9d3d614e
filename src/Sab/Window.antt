-- ===== src/Sab/Window.antt =====
-- worker/sab_channel.py, class _AtomicsBackend: the reading of a response window. JSON texts go
-- through the parameter `Json`: what is dumped on one side is loaded on the other.
use pyspark_client_wasm.Prelude.{
  ℕ, ◌+◌, Bool, false, Option, none, some, ◌==◌, if◌then◌else◌, Bytes, Text, Exn, pos,
  transport_error, transport_timeout, transport_aborted, Result, ok, err, ◌>>=◌,
}
use pyspark_client_wasm.Text.{codes, text_eq}
use pyspark_client_wasm.Dict.{Dict}
use pyspark_client_wasm.Sab.{RequestKind}
use pyspark_client_wasm.Sab.Memory.{Shared, load32, get_u32, subarray}

-- The header of a request.
pub record Header (Time : Type 0) : Type 0 where
  pub kind : RequestKind
  pub url : Text
  pub headers : Dict Text
  pub timeout : Option Time
  pub gen : ℕ

-- The meta of a window: a key that is not there is none, and `more` is whether the key is there and
-- true.
pub record Meta : Type 0 where
  pub more : Bool
  pub http_ok : Option Bool
  pub headers : Option (Dict Text)
  pub message : Option Text
  pub error_kind : Option Text

-- {}
abbrev pub no_meta : Meta
no_meta = record { more = false; http_ok = none; headers = none; message = none; error_kind = none }

-- json.dumps and JSON.stringify with the encoding to UTF-8, and json.loads and JSON.parse with the
-- decoding.
pub record Json (Time : Type 0) : Type 0 where
  pub dumps_header : Header Time → Bytes
  pub loads_header : Bytes → Result (Header Time)
  pub dumps_meta : Meta → Bytes
  pub loads_meta : Bytes → Result Meta

module _ {Time : Type 0} (json : Json Time) where
  unfoldable pub load_meta : ℕ → Bytes → Result Meta
  load_meta meta_len raw = if meta_len == 0 then ok no_meta else json.loads_meta raw

  -- _read_window: the meta, and the payload
  unfoldable pub read_window : Shared → Result (Meta × Bytes)
  unfolding load_meta
  read_window mem = do
    meta_len ← get_u32 0 mem.region
    meta ← load_meta meta_len (subarray 4 (pos (4 + meta_len)) mem.region)
    ok (meta, subarray (4 + meta_len) (load32 mem.size) mem.region)

  unfoldable pub read_meta : Shared → Result Meta
  unfolding load_meta
  read_meta mem = do
    meta_len ← get_u32 0 mem.region
    load_meta meta_len (subarray 4 (pos (4 + meta_len)) mem.region)

  unfoldable pub or_message : Option Text → Text
  or_message none = codes "transport error"
  or_message (some message) = message

  unfoldable pub error_for : Text → Option Text → Exn
  error_for message none = transport_error message
  error_for message (some kind) =
      if text_eq kind (codes "timeout")
      then transport_timeout message
      else if text_eq kind (codes "abort")
      then transport_aborted message
      else transport_error message

  unfoldable pub error_of : Result Meta → Exn
  unfolding error_for or_message
  error_of (err _) =
      transport_error (codes "transport error (and failed to read error detail from SAB)")
  error_of (ok meta) = error_for (or_message meta.message) meta.error_kind

  -- _error_from_meta
  unfoldable pub error_from_meta : Shared → Exn
  unfolding error_of read_meta
  error_from_meta mem = error_of (read_meta mem)
