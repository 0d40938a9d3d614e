-- ===== src/Arrow/Decode.antt =====
-- decode_arrow_batches: from the responses to the frame. The parts of pandas and pyarrow that it
-- calls are the parameter `Frames`; a frame is its columns, in order, each with its name.
use pyspark_client_wasm.Prelude.{
  ℕ, suc, ◌≡◌, refl, ◌⊎◌, inl, inr, Bool, true, false, Option, none, some, List, [], ◌∷◌, ◌==◌,
  if◌then◌else◌, Bool-cases, All, Text, foreign, Result, ok, err, Gen, stop, emits, ◌>>=◌,
}
use pyspark_client_wasm.Arrow.{ArrowBatch, PyArrow, reassemble}
use pyspark_client_wasm.Arrow.Served.{
  Plan, messages, IsWhole, all_batches, schema_from, reassemble-messages,
}
use pyspark_client_wasm.Text.{codes, text_eq}

pub record Frames (Schema Batch Table Column : Type 0) : Type 0 where
  pub names : Schema → List Text
  pub from_batches : List Batch → Result Table
  pub table_schema : Table → Schema
  pub table_rows : Table → ℕ
  pub empty_column : Column
  pub to_pandas : Bool → Table → Result (List (Text × Column))
  pub is_tz_aware : Column → Bool
  pub to_naive : Text → Column → Result Column

-- os.environ.get("TZ", "dateutil/:")
pub get_local_timezone : Option Text → Text
get_local_timezone none = codes "dateutil/:"
get_local_timezone (some tz) = tz

-- session_timezone or _get_local_timezone()
pub session_zone : Option Text → Option Text → Text
session_zone none env = get_local_timezone env
session_zone (some []) env = get_local_timezone env
session_zone (some (c ∷ tz)) env = c ∷ tz

module _ {Schema Batch Table Column : Type 0} (pa : PyArrow Schema Batch)
    (pd : Frames Schema Batch Table Column) where
  abbrev Frame : Type 0
  Frame = List (Text × Column)

  -- Columns with no rows, under the given names.
  empty_frame : List Text → Frame
  empty_frame [] = []
  empty_frame (name ∷ names) = (name, pd.empty_column) ∷ empty_frame names

  -- How many columns have the name.
  unfoldable pub occurrences : Text → Frame → ℕ
  occurrences name [] = 0
  occurrences name ((n, _) ∷ cs) =
      let k = occurrences name cs in if text_eq n name then suc k else k

  -- pdf[name].dt.tz_convert(tz).dt.tz_localize(None), where the column is zone-aware. Behind a name
  -- that stands twice is a frame, which has no attribute dt.
  localize_column : Frame → Text → Text → Column → Result Column
  localize_column pdf tz name c =
      if pd.is_tz_aware c
      then (if occurrences name pdf == 1
          then pd.to_naive tz c
          else err (foreign (codes "AttributeError")))
      else ok c

  localize_columns : Frame → Text → Frame → Result Frame
  unfolding localize_column
  localize_columns pdf tz [] = ok []
  localize_columns pdf tz ((name, c) ∷ cs) = do
    d ← localize_column pdf tz name c
    ds ← localize_columns pdf tz cs
    ok ((name, d) ∷ ds)

  pub localize_timestamp_columns : Frame → Text → Result Frame
  unfolding localize_columns
  localize_timestamp_columns pdf tz = localize_columns pdf tz pdf

  no_batches : Option Schema → Frame
  unfolding empty_frame
  no_batches none = []
  no_batches (some schema) = empty_frame (pd.names schema)

  -- The frame of the record batches; `coerce` tells whether pyarrow coerces temporal units.
  pub frame_of : Bool → Text → List Batch → Option Schema → Result Frame
  unfolding no_batches empty_frame localize_timestamp_columns
  frame_of coerce tz [] schema = ok (no_batches schema)
  frame_of coerce tz (b ∷ bs) schema = do
    table ← pd.from_batches (b ∷ bs)
    if pd.table_rows table == 0
        then ok (empty_frame (pd.names (pd.table_schema table)))
        else (do pdf ← pd.to_pandas coerce table; localize_timestamp_columns pdf tz)

  -- `env` is the environment variable TZ.
  pub decode_arrow_batches :
      Bool → Option Text → Option Text → Gen (Option ArrowBatch) → Result Frame
  unfolding frame_of session_zone
  decode_arrow_batches coerce env session_timezone responses = do
    (batches, schema) ← reassemble pa responses
    frame_of coerce (session_zone session_timezone env) batches schema

  -- The frame of a served result is that of its record batches, however they were cut into chunks;
  -- a result with no batch at all has no columns.
  pub decode_arrow_batches-messages :
      (coerce : Bool) (env tz : Option Text) (ps : List (Plan Schema Batch))
      → All (IsWhole pa) ps
      → decode_arrow_batches coerce env tz (emits (messages pa 0 ps) stop)
        ≡ frame_of coerce (session_zone tz env) (all_batches pa ps) (schema_from pa none ps)
  unfolding decode_arrow_batches
  decode_arrow_batches-messages coerce env tz ps w = rw (reassemble-messages pa ps w)

  -- A column that is left alone, or the only one of its name and convertible.
  abbrev pub IsConvertible : Frame → Text → Text × Column → Type 0
  IsConvertible pdf tz (name, c) =
      (pd.is_tz_aware c ≡ false)
      ⊎ (occurrences name pdf ≡ 1) × ((d : Column) × (pd.to_naive tz c ≡ ok d))

  -- Each column keeps its name; a zone-aware one is converted, and any other is kept.
  abbrev pub Localized : Text → Frame → Frame → Type 0
  Localized tz [] [] = Unit
  Localized tz ((n, c) ∷ cs) ((m, d) ∷ ds) =
      (m ≡ n)
      × ((pd.is_tz_aware c ≡ true) × (pd.to_naive tz c ≡ ok d)
          ⊎ (pd.is_tz_aware c ≡ false) × (d ≡ c))
      × Localized tz cs ds
  Localized tz _ _ = ⊥

  localize_column_lem :
      (pdf : Frame) (tz name : Text) (c : Column)
      → IsConvertible pdf tz (name, c)
      → (d : Column) × (localize_column pdf tz name c ≡ ok d)
        × ((pd.is_tz_aware c ≡ true) × (pd.to_naive tz c ≡ ok d)
            ⊎ (pd.is_tz_aware c ≡ false) × (d ≡ c))
  unfolding localize_column
  localize_column_lem pdf tz name c (inl a) = (c, rw a, inr (a, refl))
  localize_column_lem pdf tz name c (inr (o, (d, e))) = elim (Bool-cases (pd.is_tz_aware c)) [
    | inl a ↦ (d, rw (a, o) e, inl (a, e))
    | inr a ↦ (c, rw a, inr (a, refl))
  ]

  localize_columns-Localized :
      (pdf : Frame) (tz : Text) (cs : Frame)
      → All (IsConvertible pdf tz) cs
      → (out : Frame) × (localize_columns pdf tz cs ≡ ok out) × Localized tz cs out
  unfolding localize_columns
  localize_columns-Localized pdf tz [] h = ([], refl, tt)
  localize_columns-Localized pdf tz ((name, c) ∷ cs) h =
      let (d, e, one) = localize_column_lem pdf tz name c h.0 in
      let (ds, k, rest) = localize_columns-Localized pdf tz cs h.1 in
      ((name, d) ∷ ds, rw (e, k), (refl, one, rest))

  -- A frame is localised if each zone-aware column can be converted and is the only one of its
  -- name: every column keeps its place and its name, a zone-aware one is made naive in the
  -- session's zone, and any other is left as it is.
  pub localize_timestamp_columns-Localized :
      (pdf : Frame) (tz : Text)
      → All (IsConvertible pdf tz) pdf
      → (out : Frame) × (localize_timestamp_columns pdf tz ≡ ok out) × Localized tz pdf out
  unfolding localize_timestamp_columns
  localize_timestamp_columns-Localized pdf tz h = localize_columns-Localized pdf tz pdf h
