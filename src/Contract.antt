-- ===== src/Contract.antt =====
-- _contract.py: the gRPC path of a method, the HTTP response, and the channel that carries calls.
-- `SyncChannel` is the protocol that the stub's client and the SAB channel share: the operations
-- take and return the channel's state. A streaming call gives the run of its chunk iterator.
use pyspark_client_wasm.Prelude.{ℕ, Option, ◌∷◌, ◌++◌, Bytes, Text, Result, Gen}
use pyspark_client_wasm.Dict.{Dict}
use pyspark_client_wasm.Text.{codes}

abbrev pub grpc_service : Text
grpc_service = codes "spark.connect.SparkConnectService"

unfoldable pub grpc_path : Text → Text
grpc_path method = b'/' ∷ (grpc_service ++ (b'/' ∷ method))

pub record HttpResponse : Type 0 where
  pub status : ℕ
  pub headers : Dict Text
  pub body : Bytes

-- `Time` is the type of a timeout in seconds; none is no timeout.
pub record SyncChannel (Time S : Type 0) : Type 0 where
  pub unary : Text → Bytes → Dict Text → Option Time → S → Result HttpResponse × S
  pub server_stream : Text → Bytes → Dict Text → Option Time → S → Result (Gen Bytes) × S
