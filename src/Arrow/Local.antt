-- ===== src/Arrow/Local.antt =====
-- arrow/results.py, encode_local_relation: the IPC stream that createDataFrame sends, and what the
-- decoding of results makes of it.
use pyspark_client_wasm.Prelude.{
  ok-injective, ℕ, ◌≡◌, sym, ap, ◌∙◌, Bool, false, Option, none, some, List, [], ◌∷◌, append-nil,
  leb, join, Bytes, Text, Result, ok, stop, emits, ◌>>=◌, >>=-eq-ok,
}
use pyspark_client_wasm.Arrow.{PyArrow}
use pyspark_client_wasm.Arrow.Served.{Plan, messages}
use pyspark_client_wasm.Arrow.Decode.{
  Frames, session_zone, frame_of, decode_arrow_batches, decode_arrow_batches-messages,
}

-- The part of pyarrow that writes: from_pandas without the index, and a stream over a buffer. An
-- opened writer is a `Sink`, and `finished` is what the buffer holds once the writer is closed.
pub record Writing (Pandas Schema Batch Table Sink : Type 0) : Type 0 where
  pub from_pandas : Pandas → Result Table
  pub schema_of : Table → Schema
  pub to_batches : Table → List Batch
  pub new_stream : Schema → Sink
  pub write_batch : Sink → Batch → Result Sink
  pub finished : Sink → Bytes

-- int(pa.__version__.split(".", 1)[0]) >= 13; `major` is none where the version is missing or does
-- not start with a number.
abbrev pub supports_coerce_temporal_nanoseconds : Option ℕ → Bool
supports_coerce_temporal_nanoseconds none = false
supports_coerce_temporal_nanoseconds (some major) = leb 13 major

module _ {Pandas Schema Batch Table Sink : Type 0}
    (wr : Writing Pandas Schema Batch Table Sink) where
  -- for batch in batches: writer.write_batch(batch)
  unfoldable pub write_batches : Sink → List Batch → Result Sink
  write_batches sink [] = ok sink
  write_batches sink (b ∷ bs) = do next ← wr.write_batch sink b; write_batches next bs

  unfoldable pub encode_local_relation : Pandas → Result Bytes
  unfolding write_batches
  encode_local_relation pdf = do
    table ← wr.from_pandas pdf
    sink ← write_batches (wr.new_stream (wr.schema_of table)) (wr.to_batches table)
    ok (wr.finished sink)

  -- pyarrow reads back what it wrote: a stream that was opened with a schema and given batches
  -- holds them.
  abbrev pub ReadsBack : PyArrow Schema Batch → Type 0
  ReadsBack pa =
      (schema : Schema) (bs : List Batch) (sink : Sink)
      → write_batches (wr.new_stream schema) bs ≡ ok sink
      → pa.open_stream (wr.finished sink) ≡ ok (record { schema = schema; batches = bs })

  encode_local_relation-ReadsBack :
      (pa : PyArrow Schema Batch) (pdf : Pandas) (table : Table) (bytes : Bytes)
      → ReadsBack pa
      → wr.from_pandas pdf ≡ ok table
      → encode_local_relation pdf ≡ ok bytes
      → pa.open_stream bytes
        ≡ ok (record { schema = wr.schema_of table; batches = wr.to_batches table })
  unfolding encode_local_relation
  encode_local_relation-ReadsBack pa pdf table bytes r t e =
      let (sink, s, f) =
        >>=-eq-ok (write_batches (wr.new_stream (wr.schema_of table)) (wr.to_batches table))
          (λ sink. ok (wr.finished sink)) (rw t at e) in
      let q = ok-injective f in
      ap pa.open_stream (sym q) ∙ r (wr.schema_of table) (wr.to_batches table) sink s

  -- The bytes of a table, cut into one chunk or more.
  abbrev pub sent : Table → Bytes → List Bytes → Plan Schema Batch
  sent table first later = record {
    first = first;
    later = later;
    ipc = record { schema = wr.schema_of table; batches = wr.to_batches table };
  }

  -- The bytes that encode_local_relation makes of a frame, sent back in chunks in any way, decode
  -- to the frame of the table's own record batches under the table's schema, where pyarrow reads
  -- back what it wrote.
  pub decode_arrow_batches-encode_local_relation :
      (pa : PyArrow Schema Batch) {Column : Type 0} (pd : Frames Schema Batch Table Column)
      (coerce : Bool) (env tz : Option Text) (pdf : Pandas) (table : Table) (first : Bytes)
      (later : List Bytes)
      → ReadsBack pa
      → wr.from_pandas pdf ≡ ok table
      → encode_local_relation pdf ≡ ok (join (first ∷ later))
      → decode_arrow_batches pa pd coerce env tz
          (emits (messages pa 0 (sent table first later ∷ [])) stop)
        ≡ frame_of pa pd coerce
            (session_zone tz env)
            (wr.to_batches table)
            (some (wr.schema_of table))
  decode_arrow_batches-encode_local_relation pa pd coerce env tz pdf table first later r t e =
      decode_arrow_batches-messages pa pd coerce env tz (sent table first later ∷ [])
        (encode_local_relation-ReadsBack pa pdf table _ r t e, tt)
      ∙ ap (λ bs. frame_of pa pd coerce (session_zone tz env) bs (some (wr.schema_of table)))
          (append-nil (wr.to_batches table))
