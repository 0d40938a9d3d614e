-- ===== src/Shim/Stubs.antt =====
-- _build_module and _build_grpc_status_modules of _grpc_shim.py: the attributes of the stub modules
-- and what calling them does. What every module object has besides its own attributes is a
-- parameter.
pub mod Loud
use pyspark_client_wasm.Prelude.{
  ℕ, not, Option, none, some, List, [], ◌∷◌, map, if◌then◌else◌, Text, Exn, unavailable, foreign,
  Result, ok, err,
}
use mathlib.Core.Option
use pyspark_client_wasm.Text.{codes, text_eq}
use pyspark_client_wasm.Dict.{Dict, get, put, put_all, empty, or_else}

-- The members of grpc.StatusCode.
pub data StatusCode : Type 0 where
  ok_status cancelled unknown invalid_argument deadline_exceeded not_found : StatusCode
  already_exists permission_denied resource_exhausted failed_precondition : StatusCode
  aborted out_of_range unimplemented internal unavailable_status : StatusCode
  data_loss unauthenticated : StatusCode

abbrev pub status_codes : List StatusCode
status_codes =
    ok_status ∷ cancelled ∷ unknown ∷ invalid_argument ∷ deadline_exceeded ∷ not_found
    ∷ already_exists ∷ permission_denied ∷ resource_exhausted ∷ failed_precondition ∷ aborted
    ∷ out_of_range ∷ unimplemented ∷ internal ∷ unavailable_status ∷ data_loss ∷ unauthenticated
    ∷ []

unfoldable pub status_name : StatusCode → Text
status_name ok_status = codes "OK"
status_name cancelled = codes "CANCELLED"
status_name unknown = codes "UNKNOWN"
status_name invalid_argument = codes "INVALID_ARGUMENT"
status_name deadline_exceeded = codes "DEADLINE_EXCEEDED"
status_name not_found = codes "NOT_FOUND"
status_name already_exists = codes "ALREADY_EXISTS"
status_name permission_denied = codes "PERMISSION_DENIED"
status_name resource_exhausted = codes "RESOURCE_EXHAUSTED"
status_name failed_precondition = codes "FAILED_PRECONDITION"
status_name aborted = codes "ABORTED"
status_name out_of_range = codes "OUT_OF_RANGE"
status_name unimplemented = codes "UNIMPLEMENTED"
status_name internal = codes "INTERNAL"
status_name unavailable_status = codes "UNAVAILABLE"
status_name data_loss = codes "DATA_LOSS"
status_name unauthenticated = codes "UNAUTHENTICATED"

pub status_value : StatusCode → ℕ × Text
status_value ok_status = (0, codes "ok")
status_value cancelled = (1, codes "cancelled")
status_value unknown = (2, codes "unknown")
status_value invalid_argument = (3, codes "invalid argument")
status_value deadline_exceeded = (4, codes "deadline exceeded")
status_value not_found = (5, codes "not found")
status_value already_exists = (6, codes "already exists")
status_value permission_denied = (7, codes "permission denied")
status_value resource_exhausted = (8, codes "resource exhausted")
status_value failed_precondition = (9, codes "failed precondition")
status_value aborted = (10, codes "aborted")
status_value out_of_range = (11, codes "out of range")
status_value unimplemented = (12, codes "unimplemented")
status_value internal = (13, codes "internal")
status_value unavailable_status = (14, codes "unavailable")
status_value data_loss = (15, codes "data loss")
status_value unauthenticated = (16, codes "unauthenticated")

unfoldable pub named_in : Text → List StatusCode → Option StatusCode
named_in name [] = none
named_in name (c ∷ cs) = if text_eq (status_name c) name then some c else named_in name cs

-- StatusCode[name]
unfoldable pub status_named : Text → Option StatusCode
unfolding named_in
status_named name = named_in name status_codes

-- grpc.Compression and grpc.ChannelConnectivity, each member with its name and value.
abbrev pub compressions : List (Text × ℕ)
compressions = (codes "NoCompression", 0) ∷ (codes "Deflate", 1) ∷ (codes "Gzip", 2) ∷ []

abbrev pub connectivities : List (Text × Text)
connectivities =
    (codes "IDLE", codes "idle")
    ∷ (codes "CONNECTING", codes "connecting")
    ∷ (codes "READY", codes "ready")
    ∷ (codes "TRANSIENT_FAILURE", codes "transient_failure")
    ∷ (codes "SHUTDOWN", codes "shutdown")
    ∷ []

-- The classes and the functions that stand in the stub modules.
pub data Class : Type 0 where
  rpc_error status_code compression channel_connectivity : Class
  call_class rpc_context channel_class servicer_context : Class

pub data Function : Type 0 where
  unsupported getattr_function from_call to_status : Function

-- What an attribute may be; a module spec has its name and its search locations, and
-- `foreign_object` is any object that is not of this package.
pub data Object : Type 0 where
  none_object truth : Object
  text_object : Text → Object
  module_spec : Text → Option (List Text) → Object
  search_path : List Text → Object
  class_object : Class → Object
  status_member : StatusCode → Object
  compression_member : ℕ → Object
  connectivity_member : Text → Object
  function : Function → Object
  module_object : Text → Object
  foreign_object : Text → Object

-- types.ModuleType(name)
abbrev pub new_module : Text → List (Text × Object)
new_module name =
    (codes "__name__", text_object name)
    ∷ (codes "__doc__", none_object)
    ∷ (codes "__package__", none_object)
    ∷ (codes "__loader__", none_object)
    ∷ (codes "__spec__", none_object)
    ∷ []

abbrev pub grpc_doc : Text
grpc_doc = codes "Minimal grpc shim installed by pyspark_connect_web (no grpcio in Pyodide)."

abbrev pub grpc_own : List (Text × Object)
grpc_own =
    (codes "__spec__", module_spec (codes "grpc") none)
    ∷ (codes "__doc__", text_object grpc_doc)
    ∷ (codes "__pcw_shim__", truth)
    ∷ (codes "__version__", text_object (codes "1.76.0"))
    ∷ (codes "RpcError", class_object rpc_error)
    ∷ (codes "StatusCode", class_object status_code)
    ∷ (codes "Compression", class_object compression)
    ∷ (codes "ChannelConnectivity", class_object channel_connectivity)
    ∷ (codes "Call", class_object call_class)
    ∷ (codes "RpcContext", class_object rpc_context)
    ∷ (codes "Channel", class_object channel_class)
    ∷ (codes "ServicerContext", class_object servicer_context)
    ∷ []

abbrev pub constructors : List Text
constructors =
    codes "insecure_channel"
    ∷ codes "secure_channel"
    ∷ codes "ssl_channel_credentials"
    ∷ codes "local_channel_credentials"
    ∷ codes "metadata_call_credentials"
    ∷ codes "access_token_call_credentials"
    ∷ codes "composite_channel_credentials"
    ∷ codes "composite_call_credentials"
    ∷ codes "channel_ready_future"
    ∷ codes "intercept_channel"
    ∷ codes "compute_engine_channel_credentials"
    ∷ []

abbrev pub unsupported_pair : Text → Text × Object
unsupported_pair name = (name, function unsupported)

unfoldable pub build_module : Dict Object
build_module = put (codes "__getattr__") (function getattr_function) (
    put_all (map unsupported_pair constructors)
      (put_all grpc_own (put_all (new_module (codes "grpc")) empty)))

abbrev pub build_grpc_status : Dict Object
build_grpc_status =
    put_all
      ((codes "__spec__", module_spec (codes "grpc_status") (some []))
        ∷ (codes "__path__", search_path [])
        ∷ (codes "__pcw_shim__", truth)
        ∷ (codes "__version__", text_object (codes "1.76.0"))
        ∷ (codes "rpc_status", module_object (codes "grpc_status.rpc_status"))
        ∷ [])
      (put_all (new_module (codes "grpc_status")) empty)

abbrev pub build_rpc_status : Dict Object
build_rpc_status =
    put_all
      ((codes "__spec__", module_spec (codes "grpc_status.rpc_status") none)
        ∷ (codes "__pcw_shim__", truth)
        ∷ (codes "from_call", function from_call)
        ∷ (codes "to_status", function to_status)
        ∷ [])
      (put_all (new_module (codes "grpc_status.rpc_status")) empty)

abbrev pub shim_error : Exn
shim_error = foreign (codes "_ShimError")

-- A call of one of the functions; the only one that reads its argument is __getattr__, which is
-- called with a name and ignores it.
pub apply : Function → Result Object
apply unsupported = err shim_error
apply getattr_function = ok (function unsupported)
apply from_call = ok none_object
apply to_status = err shim_error

-- What a name resolves to, from the module's own attribute and the one that every module has:
-- __getattr__ where there is neither.
unfoldable pub resolve : Option Object → Option Object → Result Object
unfolding apply
resolve none none = apply getattr_function
resolve none (some o) = ok o
resolve (some o) extra = ok o

-- getattr(grpc, name)
unfoldable pub grpc_attribute : (Text → Option Object) → Text → Result Object
unfolding resolve
grpc_attribute inherited name = resolve (get build_module name) (inherited name)

-- getattr(c, name) for a class: the members of an enumeration. The other classes have no attributes
-- of their own.
unfoldable pub class_attribute : Class → Text → Option Object
class_attribute status_code name = Option.map status_member (status_named name)
class_attribute compression name =
    Option.map compression_member (get (put_all compressions empty) name)
class_attribute channel_connectivity name =
    Option.map connectivity_member (get (put_all connectivities empty) name)
class_attribute _ name = none
