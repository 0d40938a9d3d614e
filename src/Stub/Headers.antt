-- ===== src/Stub/Headers.antt =====
-- The headers of a request.
use pyspark_client_wasm.Prelude.{◌≡◌, ap, ◌∙◌, Option, some, if◌then◌else◌, Text}
use pyspark_client_wasm.Dict.{get, put, put_all, get-put, get-put_all, or_else, last_value}
use pyspark_client_wasm.Stub.{
  Metadata, content_type, base_headers, lower_keys, headers_from_metadata,
}
use pyspark_client_wasm.Text.{Unicode, codes, text_eq}

-- Whatever the metadata, the request has the grpc-web marker and content type; any other header has
-- the value that the metadata gives last for its name in lower case, and else the default's.
pub get-headers_from_metadata :
    (u : Unicode) (md : Metadata) (k : Text)
    → get (headers_from_metadata u md) k ≡ (
        if text_eq (codes "x-grpc-web") k
        then some (codes "1")
        else if text_eq (codes "content-type") k
        then some content_type
        else or_else (last_value k (lower_keys u md)) (get base_headers k))
unfolding headers_from_metadata
get-headers_from_metadata u md k =
    let base = put_all (lower_keys u md) base_headers in
    let typed = put (codes "content-type") content_type base in
    get-put typed (codes "x-grpc-web") k (codes "1")
    ∙ ap (λ (o : Option Text). if text_eq (codes "x-grpc-web") k then some (codes "1") else o)
        (get-put base (codes "content-type") k content_type
          ∙ ap
              (λ (o : Option Text).
                if text_eq (codes "content-type") k then some content_type else o)
              (get-put_all (lower_keys u md) base_headers k))
