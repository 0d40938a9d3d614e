-- ===== src/Sab.antt =====
-- worker/sab_channel.py, class SabSyncChannel: the channel that a stub calls. What moves the bytes,
-- a SyncBackend, is a parameter with a state of its own.
pub mod Calls
pub mod Memory
pub mod Window
pub mod Machine
pub mod Atomics
pub mod Streams
pub mod Bridge
pub mod Transfer
pub mod Kernel
pub mod EndToEnd
pub mod Protocol
pub mod Tests
use pyspark_client_wasm.Prelude.{
  not, Option, none, some, ◌++◌, if◌then◌else◌, Bytes, Text, transport_error, Result, ok, err, Gen,
  ◌>>=◌,
}
use pyspark_client_wasm.Text.{codes, starts_with, strip_right}
use pyspark_client_wasm.Text.Slashes.{is_slash}
use pyspark_client_wasm.Dict.{Dict}
use pyspark_client_wasm.Contract.{HttpResponse, SyncChannel}

pub data RequestKind : Type 0 where
  unary server_stream : RequestKind

pub record Request (Time : Type 0) : Type 0 where
  pub kind : RequestKind
  pub url : Text
  pub path : Text
  pub body : Bytes
  pub headers : Dict Text
  pub timeout : Option Time

pub record SyncBackend (Time S : Type 0) : Type 0 where
  pub unary : Request Time → S → Result HttpResponse × S
  pub server_stream : Request Time → S → Result (Gen Bytes) × S

pub record SabSyncChannel (Time S : Type 0) : Type 0 where
  pub base_url : Text
  pub backend : SyncBackend Time S

-- The constructor. Without a backend, the Atomics backend is made where Pyodide runs: `atomics` is
-- its constructor, none outside Pyodide.
pub make_channel :
    {Time S : Type 0}
    → Option (Text → Result (SyncBackend Time S))
    → Text
    → Option (SyncBackend Time S)
    → Result (SabSyncChannel Time S)
make_channel atomics base_url (some backend) =
    ok (record { base_url = strip_right is_slash base_url; backend = backend })
make_channel none base_url none = err (transport_error (codes "SabSyncChannel has no backend"))
make_channel (some make) base_url none = do
  backend ← make (strip_right is_slash base_url)
  ok (record { base_url = strip_right is_slash base_url; backend = backend })

module _ {Time S : Type 0} (chan : SabSyncChannel Time S) where
  -- SabSyncChannel._request
  request_of : RequestKind → Text → Bytes → Dict Text → Option Time → Result (Request Time)
  request_of kind path body headers timeout =
      if not (starts_with (codes "/") path)
      then err (transport_error path)
      else ok (record {
        kind = kind;
        url = chan.base_url ++ path;
        path = path;
        body = body;
        headers = headers;
        timeout = timeout;
      })

  -- A request that is refused does not reach the backend.
  send : {A : Type 0} → (Request Time → S → Result A × S) → Result (Request Time) → S → Result A × S
  send backend (err e) s = (err e, s)
  send backend (ok request) s = backend request s

  -- The channel as the stub sees it.
  pub sync_channel : SyncChannel Time S
  unfolding request_of send
  sync_channel = record {
    unary = λ path body headers timeout s.
        send chan.backend.unary (request_of unary path body headers timeout) s;
    server_stream = λ path body headers timeout s.
        send chan.backend.server_stream (request_of server_stream path body headers timeout) s;
  }
