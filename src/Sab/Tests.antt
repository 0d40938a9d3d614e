-- ===== src/Sab/Tests.antt =====
-- The channel over a backend that notes the URL of each request.
pub mod Toy
pub mod Exchange
pub mod Start
pub mod EndToEnd
pub mod Protocol
use pyspark_client_wasm.Prelude.{ℕ, ◌≡◌, refl, none, some, List, ◌∷◌, ◌++◌, Text, ok, stop, emit}
use pyspark_client_wasm.Text.{codes, strip_right}
use pyspark_client_wasm.Text.Slashes.{is_slash, slashes}
use pyspark_client_wasm.Dict.{empty}
use pyspark_client_wasm.Sab.{SyncBackend, SabSyncChannel, make_channel, sync_channel}
use pyspark_client_wasm.Sab.Calls.{Calls, make_channel-Calls}

abbrev noting : SyncBackend ℕ (List Text)
noting = record {
  unary = λ r s. (ok (record { status = 200; headers = empty; body = r.body }), r.url ∷ s);
  server_stream = λ r s. (ok (emit r.body stop), r.url ∷ s);
}

make_channel-Calls_example :
    (chan : SabSyncChannel ℕ (List Text)) × (make_channel none
        (codes "http://h" ++ slashes 2)
        (some noting)
      ≡ ok chan)
    × Calls noting (codes "http://h") (sync_channel chan)
make_channel-Calls_example =
    make_channel-Calls noting none (codes "http://h") 2 (unfold strip_right is_slash in refl)
