-- ===== src/Streaming/Sinks.antt =====
-- src/openlithohub/streaming/sinks.py: the sinks that take the cores of the tiles. A tensor is its shape
-- and its entries, and the entries are a type with a zero and a test for the values 0.0 and 1.0.
use open_litho_hub.Base.{
  ◌≡◌, ◌↔◌, ap, arith, ℕ, zero, suc, ◌+◌, ◌-◌, ◌*◌, Bool, true, false, not, ◌&&◌, ◌||◌, Option,
  none, some, List, [], ◌∷◌, ◌++◌, String, Outcome, ok, raise, ◌>>=◌, ◌>>◌, require, ltb, leb, ◌==◌,
  if◌then◌else◌,
}
pub mod Assemble
pub mod Examples
use Prim.Native.String.{◌++◌ as str_append}
use open_litho_hub.Base.Dict.{Eq, Dict, lookup, insert, mem, has_key}
use open_litho_hub.Base.Text.{string_eq}
use open_litho_hub.Base.Int.{ℤ, sub_ℕ, pos}
use open_litho_hub.Streaming.Geometry.{BoundingBox, width, height, area}

-- `value == 0.0` and `value == 1.0`
pub record Entry (F : Type 0) : Type 0 where
  pub zero_f : F
  pub is_zero : F → Bool
  pub is_one : F → Bool

pub record Tensor (F : Type 0) : Type 0 where
  pub rows : ℕ
  pub cols : ℕ
  pub at : (row col : ℕ) → F

pub data SinkError : Type 0 where
  duplicate_core shape_mismatch not_binarised not_representable : SinkError

-- torch.full((bbox.height, bbox.width), value)
abbrev pub full : {F : Type 0} → BoundingBox → F → Tensor F
full b value = record { rows = height b; cols = width b; at = λ row col. value }

pub record TensorTileSink (F K : Type 0) : Type 0 where
  pub shape_h : ℕ
  pub shape_w : ℕ
  pub output : (row col : ℕ) → F
  pub written : List K

-- A slice of a dimension of size `limit` takes `stop - start` entries if it ends inside; torch stretches
-- one entry to a slice that is empty.
abbrev pub fits_dim : (start stop limit : ℕ) → Bool
fits_dim start stop limit = leb stop limit || (stop - start == 1)

module _ {F K : Type 0} ⦃s : Entry F⦄ ⦃e : Eq K⦄ where
  -- TensorTileSink(shape)
  abbrev pub tensor_tile_sink : (h w : ℕ) → TensorTileSink F K
  tensor_tile_sink h w = record {
    shape_h = h;
    shape_w = w;
    output = λ row col. s.zero_f;
    written = [];
  }

  -- self.output[y0:y1, x0:x1] = tensor
  abbrev pub assign : BoundingBox → Tensor F → TensorTileSink F K → TensorTileSink F K
  assign b t sink = record sink {
    output = λ row col.
        if (leb b.y0 row && ltb row b.y1)
          && (leb b.x0 col && ltb col b.x1)
          && (ltb row sink.shape_h && ltb col sink.shape_w)
        then t.at (row - b.y0) (col - b.x0)
        else sink.output row col;
  }

  -- The id is marked before the shape is tested.
  unfoldable pub tensor_write_core :
      K
      → BoundingBox
      → Tensor F
      → TensorTileSink F K
      → Outcome SinkError (Unit {0}) × TensorTileSink F K
  unfolding mem
  tensor_write_core tile_id b t sink =
      if mem tile_id sink.written
      then (raise duplicate_core, sink)
      else let marked = record sink { written = tile_id ∷ sink.written } in
        if (t.rows == height b)
          && (t.cols == width b)
          && fits_dim b.y0 b.y1 sink.shape_h
          && fits_dim b.x0 b.x1 sink.shape_w
        then (ok tt, assign b t marked)
        else (raise shape_mismatch, marked)

  unfoldable pub tensor_record_certified_core :
      K
      → BoundingBox
      → (exact_fill : Option F) → TensorTileSink F K
      → Outcome SinkError (Unit {0}) × TensorTileSink F K
  unfolding tensor_write_core
  tensor_record_certified_core tile_id b none sink = (raise not_representable, sink)
  tensor_record_certified_core tile_id b (some value) sink =
      tensor_write_core tile_id b (full b value) sink

-- A value of the metadata: a number, or anything else.
pub data Meta (F : Type 0) : Type 0 where
  number : F → Meta F
  other : String → Meta F

pub record MetricOnlyTileSink (F K : Type 0) : Type 0 where
  pub tiles : List K
  pub covered_pixels : ℕ
  pub metrics : Dict String F
  pub metadata : Dict K (Dict String (Meta F))
  pub certified_records : Dict K String
  pub certified_pixels : ℕ

-- float("-inf") and max(a, b)
pub record Bounds (F : Type 0) : Type 0 where
  pub neg_inf : F
  pub max_of : F → F → F

module _ {F : Type 0} ⦃b : Bounds F⦄ where
  abbrev pub get_or_neg_inf : Option F → F
  get_or_neg_inf none = b.neg_inf
  get_or_neg_inf (some x) = x

  -- The loop over the items of the metadata.
  pub fold_metadata : Dict String (Meta F) → Dict String F → Dict String F
  unfolding lookup insert
  fold_metadata [] metrics = metrics
  fold_metadata ((key, other _) ∷ rest) metrics = fold_metadata rest metrics
  fold_metadata ((key, number value) ∷ rest) metrics =
      let name = str_append "max_" key in
      fold_metadata rest
        (insert name (b.max_of (get_or_neg_inf (lookup name metrics)) value) metrics)

-- dict.setdefault
unfoldable pub set_default : {V : Type 0} → String → V → Dict String V → Dict String V
unfolding has_key insert
set_default key value m = if has_key key m then m else insert key value m

abbrev pub disposition : {F : Type 0} → Option F → String
disposition none = "VERIFICATION_ONLY_SKIP"
disposition (some _) = "EXACT_OUTPUT_SKIP"

abbrev pub with_fill : {F : Type 0} → Option F → Dict String (Meta F) → Dict String (Meta F)
with_fill none meta = meta
with_fill (some value) meta = set_default "certified_exact_fill" (number value) meta

module _ {F K : Type 0} ⦃b : Bounds F⦄ ⦃e : Eq K⦄ where
  unfoldable pub metric_write_core :
      K
      → BoundingBox
      → (metadata : Dict String (Meta F)) → MetricOnlyTileSink F K
      → MetricOnlyTileSink F K
  unfolding fold_metadata insert
  metric_write_core tile_id box meta sink = record sink {
    tiles = sink.tiles ++ tile_id ∷ [];
    covered_pixels = sink.covered_pixels + area box;
    metadata = insert tile_id meta sink.metadata;
    metrics = fold_metadata meta sink.metrics;
  }

  unfoldable pub metric_record_certified_core :
      K
      → BoundingBox
      → (exact_fill : Option F) → (metadata : Dict String (Meta F)) → MetricOnlyTileSink F K
      → MetricOnlyTileSink F K
  unfolding metric_write_core set_default insert
  metric_record_certified_core tile_id box fill meta sink =
      let tagged =
        with_fill fill (set_default "screen_disposition" (other (disposition fill)) meta) in
      let after = metric_write_core tile_id box tagged sink in
      record after {
        certified_records = insert tile_id (disposition fill) after.certified_records;
        certified_pixels = after.certified_pixels + area box;
      }
