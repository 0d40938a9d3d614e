-- ===== src/Sab/Tests/Toy.antt =====
-- A small exchange: a codec that writes a byte for each text that occurs, a request of one byte,
-- and a region in which a window has room for one byte, so that longer bodies come in several.
use pyspark_client_wasm.Prelude.{
  length, Text, ℕ, ◌≡◌, refl, sym, ap, ◌∙◌, Bool, true, false, Option, none, some, List, [], ◌∷◌,
  arith, ◌==◌, if◌then◌else◌, Bytes, foreign, Result, ok, err, ◌*◌, ◌-◌, ◌<◌, ◌≤◌,
}
use pyspark_client_wasm.Text.{codes}
use pyspark_client_wasm.Dict.{Dict, empty}
use pyspark_client_wasm.Sab.{unary, Request}
use pyspark_client_wasm.Sab.Memory.{s_idle, store32}
use pyspark_client_wasm.Sab.Window.{Meta, no_meta, Json}
use pyspark_client_wasm.Sab.Machine.{Event, World}
use pyspark_client_wasm.Sab.Atomics.{kernel, header_of, needed_for, zeros, new_call}
use pyspark_client_wasm.Sab.Atomics.Grow.{length-zeros}
use pyspark_client_wasm.Sab.Atomics.Requests.{IsAttached, needed, write_request-Written}
use pyspark_client_wasm.Sab.Bridge.{payload_capacity}
use pyspark_client_wasm.Sab.Transfer.{AreCarried}
use pyspark_client_wasm.Sab.Transfer.Unary.{IsBounded, written, new_call-IsAttached}

abbrev pub ping : Request ℕ
ping = record {
  kind = unary;
  url = codes "http://h/p";
  path = codes "/p";
  body = 9 ∷ [];
  headers = empty;
  timeout = none;
}

-- What the bridge says of a response with headers.
abbrev pub ok_meta : Meta
ok_meta = record no_meta { http_ok = some true; headers = some empty }

abbrev tag : Bool → Option (Dict Text) → Bytes
tag true none = 1 ∷ []
tag false none = 2 ∷ []
tag true (some _) = 3 ∷ []
tag false (some _) = 4 ∷ []

-- Two errors, told apart by their messages.
abbrev tag_of : Bytes → Option Text → Bytes
tag_of bs none = bs
tag_of bs (some message) = if length message == 4 then 6 ∷ [] else 5 ∷ []

abbrev meta_of : Bytes → Result Meta
meta_of (n ∷ []) =
    if n == 1
    then ok (record no_meta { more = true })
    else if n == 2
    then ok no_meta
    else if n == 3
    then ok (record ok_meta { more = true })
    else if n == 4
    then ok ok_meta
    else if n == 5
    then ok (record no_meta { message = some (codes "reset"); error_kind = some (codes "error") })
    else ok (record no_meta { message = some (codes "slow"); error_kind = some (codes "timeout") })
meta_of _ = err (foreign (codes "JSONDecodeError"))

abbrev pub toy : Json ℕ
toy = record {
  dumps_header = λ h. 7 ∷ [];
  loads_header = λ bs. ok (header_of ping 1);
  dumps_meta = λ m. tag_of (tag m.more m.headers) m.message;
  loads_meta = meta_of;
}

pub ok_meta-AreCarried : AreCarried toy ok_meta
ok_meta-AreCarried true = record { loads_dumps = refl; nonempty = omega arith; fits = omega arith }
ok_meta-AreCarried false = record { loads_dumps = refl; nonempty = omega arith; fits = omega arith }

pub no_meta-AreCarried : AreCarried toy no_meta
no_meta-AreCarried true = record { loads_dumps = refl; nonempty = omega arith; fits = omega arith }
no_meta-AreCarried false = record { loads_dumps = refl; nonempty = omega arith; fits = omega arith }

abbrev pub world_of : ℕ → List Event → World
world_of size script = record {
  mem = record {
    region = zeros size;
    state = s_idle;
    size = 0;
    status = 0;
    seq = 0;
    gen = 0;
    cap = store32 size;
  };
  capacity = size;
  gen = 0;
  posts = [];
  script = script;
}

abbrev pub world : List Event → World
world = world_of 4101

pub world_of-IsAttached :
    (size : ℕ) (script : List Event) → 0 < size → IsAttached (world_of size script)
world_of-IsAttached size script h = record {
  attached = sym (length-zeros size);
  published = refl;
  nonempty = h;
}

pub world-IsAttached : (script : List Event) → IsAttached (world script)
world-IsAttached script = world_of-IsAttached 4101 script (omega arith)

needed_lem : (script : List Event) → needed toy kernel false ping (new_call (world script)) ≡ 10
needed_lem script = unfold needed_for in refl

pub world-IsBounded :
    (script : List Event)
    → IsBounded (needed toy kernel false ping (new_call (world script))) (world script)
world-IsBounded script = record {
  gen = omega arith;
  request = omega (arith, needed_lem script);
  room = omega arith;
  small = omega arith;
}

-- A request that fits leaves the region as large as it is.
pub payload_capacity-world_of :
    (request : Request ℕ) (size : ℕ) (script : List Event)
    → 0 < size
    → 2 * needed toy kernel false request (new_call (world_of size script)) ≤ size
    → payload_capacity (written toy kernel false request (world_of size script)).mem.region
      ≡ size - 4096 - 4
unfolding payload_capacity new_call
payload_capacity-world_of request size script h k =
    let a = new_call-IsAttached (world_of size script) (world_of-IsAttached size script h) in
    let (w1, run, d) =
      write_request-Written toy kernel false request (new_call (world_of size script)) a in
    ap (λ x. payload_capacity x.1.mem.region) run ∙ ground (arith, d.attached.attached, d.least, k)

pub payload_capacity-written :
    (script : List Event)
    → payload_capacity (written toy kernel false ping (world script)).mem.region ≡ 1
payload_capacity-written script =
    payload_capacity-world_of ping 4101 script (omega arith) (omega (arith, needed_lem script))
