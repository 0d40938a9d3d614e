-- ===== src/Stub/Retry.antt =====
-- transport/grpcweb.py, _transport_unavailable: the error that PySpark retries, made from the
-- module that is loaded as grpc, be it grpcio's or the stub.
use pyspark_client_wasm.Prelude.{
  ◌≡◌, refl, ap, ◌∙◌, Bool, false, Option, none, some, Text, Result, ok, err,
}
use pyspark_client_wasm.Text.{codes, text_eq}
use pyspark_client_wasm.Dict.{get, put, put_all, empty}
use pyspark_client_wasm.Shim.{
  Module, grpc, grpc_status, rpc_status, other_module, Modules, loaded, install_grpc_shim,
}
use pyspark_client_wasm.Shim.Lifecycle.{loaded-install_grpc_shim}
use pyspark_client_wasm.Shim.Stubs.{
  status_name, status_named, named_in, unavailable_status, rpc_error, Object, none_object,
  class_object, status_member, foreign_object, build_module, build_grpc_status, build_rpc_status,
  resolve, grpc_attribute, class_attribute,
}

-- _WebRpcError(message): the class that it derives from, what code() returns, and what details()
-- and str() return.
pub record WebRpcError : Type 0 where
  pub base : Object
  pub code : Object
  pub details : Text

attribute_or : Object → Option Object → Object
attribute_or default none = default
attribute_or default (some o) = o

module _ {M : Type 0} (inherited : Text → Option Object) (attribute : M → Text → Option Object)
    (member : Object → Text → Option Object) where
  -- getattr(m, name), none where it raises AttributeError. `attribute` is that of a module that is
  -- not of this package, and `member` that of an object that is no class of the stub.
  module_attribute : Module M → Text → Option Object
  module_attribute grpc name = elim (grpc_attribute inherited name) [ ok o ↦ some o | err _ ↦ none ]
  module_attribute grpc_status name = elim (get build_grpc_status name) [
    | none ↦ inherited name
    | some o ↦ some o
  ]
  module_attribute rpc_status name = elim (get build_rpc_status name) [
    | none ↦ inherited name
    | some o ↦ some o
  ]
  module_attribute (other_module m) name = attribute m name

  object_attribute : Object → Text → Option Object
  object_attribute (class_object c) name = class_attribute c name
  object_attribute o name = member o name

  -- getattr(grpc, name, default) if grpc else default
  grpc_or : Option (Module M) → Text → Object → Object
  unfolding attribute_or module_attribute
  grpc_or none name default = default
  grpc_or (some m) name default = attribute_or default (module_attribute m name)

  error_over : Option (Module M) → Text → WebRpcError
  unfolding grpc_or object_attribute
  error_over found message = record {
    base = grpc_or found (codes "RpcError") (foreign_object (codes "Exception"));
    code =
        attribute_or none_object
          (object_attribute (grpc_or found (codes "StatusCode") none_object) (codes "UNAVAILABLE"));
    details = message;
  }

  pub transport_unavailable : Modules M → Text → WebRpcError
  unfolding error_over
  transport_unavailable modules message = error_over (loaded modules (codes "grpc")) message

  -- A grpc.RpcError whose code() is StatusCode.UNAVAILABLE.
  abbrev pub retryable : Text → WebRpcError
  retryable message = record {
    base = class_object rpc_error;
    code = status_member unavailable_status;
    details = message;
  }

  error_over-stub : (message : Text) → error_over (some grpc) message ≡ retryable message
  unfolding error_over module_attribute attribute_or grpc_attribute class_attribute resolve named_in
      build_module status_named status_name text_eq get put put_all empty
  error_over-stub message = refl

  -- Where grpcio is not installed and no module is loaded as grpc, the error that is built for a
  -- failed transport after install_grpc_shim is the one that PySpark's retry policy looks for: an
  -- instance of the stub's RpcError, whose code() is the stub's StatusCode.UNAVAILABLE and whose
  -- details() are the message.
  pub transport_unavailable-install_grpc_shim :
      (marked : M → Bool) (find_spec : Modules M → Text → Result Bool) (modules : Modules M)
      (message : Text)
      → loaded modules (codes "grpc") ≡ none
      → find_spec modules (codes "grpc") ≡ ok false
      → transport_unavailable (install_grpc_shim marked find_spec modules).1 message
        ≡ retryable message
  unfolding transport_unavailable
  transport_unavailable-install_grpc_shim marked find_spec modules message e f =
      ap (λ m. error_over m message) (loaded-install_grpc_shim marked find_spec modules e f)
      ∙ error_over-stub message
