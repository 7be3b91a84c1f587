-- ===== src/Streaming/VectorRuns.antt =====
-- src/openlithohub/streaming/vector_runs.py: the spans of a row, and what holes cut out of them.
-- The edges of a span are only compared with each other, so that they are natural numbers.
pub mod Cuts
use open_litho_hub.Base.{
  ℕ, Bool, true, false, not, ◌&&◌, ◌||◌, List, [], ◌∷◌, ◌++◌, ltb, leb, min, max, if◌then◌else◌,
}

abbrev pub Span : Type 0
Span = ℕ × ℕ

-- The body of the inner loop: what a cut leaves of one span.
unfoldable pub cut_span : (cut : Span) → Span → List Span
cut_span (ca, cb) (a, b) =
    if leb cb a || leb b ca
    then (a, b) ∷ []
    else (if ltb a ca then (a, min b ca) ∷ [] else [])
      ++ (if ltb cb b then (max a cb, b) ∷ [] else [])

-- The inner loop, over the spans that are left.
unfoldable pub cut_spans : (cut : Span) → List Span → List Span
unfolding cut_span
cut_spans cut [] = []
cut_spans cut (s ∷ spans) = cut_span cut s ++ cut_spans cut spans

-- [(a, b) for a, b in nxt if b > a]
unfoldable pub nonempty_spans : List Span → List Span
nonempty_spans [] = []
nonempty_spans ((a, b) ∷ spans) =
    let rest = nonempty_spans spans in if ltb a b then (a, b) ∷ rest else rest

-- _subtract_spans
unfoldable pub subtract_spans : (base cuts : List Span) → List Span
unfolding cut_spans nonempty_spans
subtract_spans out [] = out
subtract_spans out (cut ∷ cuts) = subtract_spans (nonempty_spans (cut_spans cut out)) cuts

-- polygon_row_spans, from the spans of the outer loop and of each hole in the row.
unfoldable pub polygon_row_spans : (outer : List Span) (holes : List (List Span)) → List Span
unfolding subtract_spans
polygon_row_spans spans [] = spans
polygon_row_spans spans (hole ∷ holes) = polygon_row_spans (subtract_spans spans hole) holes
