-- ===== src/Streaming/VectorRuns/Cuts.antt =====
-- subtract_spans: the pixels of a row that are left.
use open_litho_hub.Base.{
  ℕ, ◌≡◌, refl, Bool, false, not, ◌&&◌, ◌||◌, List, [], ◌∷◌, ◌++◌, ltb, leb, arith,
}
use open_litho_hub.Streaming.VectorRuns.{
  Span, cut_span, cut_spans, nonempty_spans, subtract_spans, polygon_row_spans,
}

-- Some span of the list has the pixel.
abbrev pub covers : List Span → (x : ℕ) → Bool
covers [] x = false
covers ((a, b) ∷ spans) x = (leb a x && ltb x b) || covers spans x

-- Some of the lists covers the pixel.
abbrev pub any_covers : List (List Span) → (x : ℕ) → Bool
any_covers [] x = false
any_covers (spans ∷ rest) x = covers spans x || any_covers rest x

covers-append : (xs ys : List Span) (x : ℕ) → covers (xs ++ ys) x ≡ (covers xs x || covers ys x)
covers-append [] ys x = refl
covers-append (s ∷ xs) ys x = ground (arith, covers-append xs ys x)

cut_span-covers :
    (ca cb a b x : ℕ)
    → covers (cut_span (ca, cb) (a, b)) x ≡ ((leb a x && ltb x b) && not (leb ca x && ltb x cb))
unfolding cut_span
cut_span-covers ca cb a b x = ground arith

cut_spans-covers :
    (ca cb : ℕ) (spans : List Span) (x : ℕ)
    → covers (cut_spans (ca, cb) spans) x ≡ (covers spans x && not (leb ca x && ltb x cb))
unfolding cut_spans
cut_spans-covers ca cb [] x = refl
cut_spans-covers ca cb ((a, b) ∷ spans) x = ground (
  arith,
  covers-append (cut_span (ca, cb) (a, b)) (cut_spans (ca, cb) spans) x,
  cut_span-covers ca cb a b x,
  cut_spans-covers ca cb spans x,
)

nonempty_spans-covers :
    (spans : List Span) (x : ℕ) → covers (nonempty_spans spans) x ≡ covers spans x
unfolding nonempty_spans
nonempty_spans-covers [] x = refl
nonempty_spans-covers ((a, b) ∷ spans) x = ground (arith, nonempty_spans-covers spans x)

subtract_spans-covers :
    (base cuts : List Span) (x : ℕ)
    → covers (subtract_spans base cuts) x ≡ (covers base x && not (covers cuts x))
unfolding subtract_spans
subtract_spans-covers base [] x = ground arith
subtract_spans-covers base ((ca, cb) ∷ cuts) x =
    let left = cut_spans (ca, cb) base in
    ground (
      arith,
      subtract_spans-covers (nonempty_spans left) cuts x,
      nonempty_spans-covers left x,
      cut_spans-covers ca cb base x,
    )

-- The spans of a polygon in a row cover exactly the pixels that the spans of its outer loop cover and
-- the spans of none of its holes: for every list of spans, ordered or not, disjoint or not.
pub polygon_row_spans-covers :
    (outer : List Span) (holes : List (List Span)) (x : ℕ)
    → covers (polygon_row_spans outer holes) x ≡ (covers outer x && not (any_covers holes x))
unfolding polygon_row_spans
polygon_row_spans-covers outer [] x = ground arith
polygon_row_spans-covers outer (hole ∷ holes) x = ground (
  arith,
  polygon_row_spans-covers (subtract_spans outer hole) holes x,
  subtract_spans-covers outer hole x,
)
