-- ===== src/Streaming/OwnedRuns/Slices.antt =====
-- iter_owned_runs_for_bbox: the slices own what the canonical runs own inside the window.
use open_litho_hub.Base.{
  ℕ, zero, suc, ◌+◌, ◌-◌, ◌≤◌, ◌≡◌, refl, Bool, true, false, ◌&&◌, List, [], ◌∷◌, ◌++◌, String, ok,
  ltb, ◌==◌, min, max, if◌then◌else◌, arith, tally, count_by, count_by-append, All, Bool-cases, ◌∙◌,
  ap, ==_iff, inl, inr,
}
use open_litho_hub.Streaming.Geometry.{BoundingBox, arith_seq}
use open_litho_hub.Streaming.Geometry.Pixels.{in_span}
use open_litho_hub.Streaming.OwnedRuns.{
  OwnedRun, OwnedRunSlice, owned_run_slice, clip_runs, clip_rows, iter_owned_runs_for_bbox,
}

-- How many runs of a row own the column, and how many slices own the pixel.
abbrev pub run_owners : List OwnedRun → (x : ℕ) → ℕ
run_owners runs x = count_by (λ r. in_span r.x0 r.x1 x) runs

abbrev pub slice_owners : List OwnedRunSlice → (x y : ℕ) → ℕ
slice_owners slices x y = count_by (λ s. in_span s.x0 s.x1 x && (s.parent.y == y)) slices

-- The runs of a row carry its number.
abbrev pub AreOfRow : (y : ℕ) → List OwnedRun → Type 0
AreOfRow y runs = All (λ r. r.y ≡ y) runs

clip_span : (pa pb a c x : ℕ) → in_span (max pa a) (min pb c) x ≡ (in_span pa pb x && in_span a c x)
clip_span pa pb a c x = ground arith

empty_clip :
    (pa pb a c x : ℕ)
    → ltb (max pa a) (min pb c) ≡ false
    → (in_span pa pb x && in_span a c x) ≡ false
empty_clip pa pb a c x h = ground arith

take_run :
    (p i q : Bool) (m : ℕ)
    → tally ((p && i) && q) + (if q && i then m else 0) ≡ (if q && i then tally p + m else 0)
take_run p i q m = ground arith

skip_run :
    (p i q : Bool) (m : ℕ)
    → (p && i) ≡ false
    → (if q && i then m else 0) ≡ (if q && i then tally p + m else 0)
skip_run p i q m h = ground arith

clip_step :
    (p : OwnedRun) (runs : List OwnedRun) (slices : List OwnedRunSlice) (b : BoundingBox)
    (tile role : String)
    → ltb (max p.x0 b.x0) (min p.x1 b.x1) ≡ true
    → clip_runs b tile role runs ≡ ok slices
    → clip_runs b tile role (p ∷ runs)
      ≡ ok (
          record { parent = p; x0 = max p.x0 b.x0; x1 = min p.x1 b.x1; tile_id = tile; role = role }
          ∷ slices)
unfolding clip_runs owned_run_slice
clip_step p runs slices b tile role h e = ground (arith, h, e)

join_rows :
    (i : Bool) (s n y a c : ℕ)
    → ((s == y) ≡ true → a ≡ c)
    → (if (s == y) && i then a else 0) + (if in_span (s + 1) (s + 1 + n) y && i then c else 0)
      ≡ (if in_span s (s + suc n) y && i then c else 0)
join_rows i s n y a c same = elim (Bool-cases (s == y)) [
  | inl t ↦ let e : a ≡ c = same t in ground arith
  | inr f ↦ ground arith
]

module _ (b : BoundingBox) (tile role : String) where
  clip_runs-owners :
      (row : ℕ) (runs : List OwnedRun)
      → AreOfRow row runs
      → (slices : List OwnedRunSlice) × (clip_runs b tile role runs ≡ ok slices)
        × ((x y : ℕ)
            → slice_owners slices x y
              ≡ (if (row == y) && in_span b.x0 b.x1 x then run_owners runs x else 0))
  unfolding clip_runs
  clip_runs-owners row [] h = ([], refl, (λ x y. ground arith))
  clip_runs-owners row (p ∷ runs) h =
      let (slices, e, count) = clip_runs-owners row runs h.1 in
      elim (Bool-cases (ltb (max p.x0 b.x0) (min p.x1 b.x1))) [
        | inr f ↦ (
          slices,
          rw (f, clip_runs) e,
          (λ x y.
              count x y
              ∙ skip_run (in_span p.x0 p.x1 x) (in_span b.x0 b.x1 x) (row == y) (run_owners runs x)
                  (empty_clip p.x0 p.x1 b.x0 b.x1 x f)),
        )
        | inl t ↦
            let slice : OwnedRunSlice = record {
              parent = p;
              x0 = max p.x0 b.x0;
              x1 = min p.x1 b.x1;
              tile_id = tile;
              role = role;
            } in
            (
              slice ∷ slices,
              clip_step p runs slices b tile role t e,
              (λ x y.
                  rw (clip_span p.x0 p.x1 b.x0 b.x1 x, h.0, count x y)
                    (take_run (in_span p.x0 p.x1 x) (in_span b.x0 b.x1 x) (row == y)
                      (run_owners runs x))),
            )
      ]

  clip_rows-owners :
      (rows : ℕ → List OwnedRun)
      → ((y : ℕ) → AreOfRow y (rows y))
      → (n s : ℕ)
      → (slices : List OwnedRunSlice) × (clip_rows rows b tile role (arith_seq n s 1) ≡ ok slices)
        × ((x y : ℕ)
            → slice_owners slices x y
              ≡ (if in_span s (s + n) y && in_span b.x0 b.x1 x then run_owners (rows y) x else 0))
  unfolding clip_rows arith_seq
  clip_rows-owners rows h zero s = ([], refl, (λ x y. ground arith))
  clip_rows-owners rows h (suc n) s =
      let (row, er, here) = clip_runs-owners s (rows s) (h s) in
      let (rest, e, later) = clip_rows-owners rows h n (s + 1) in
      (
        row ++ rest,
        rw (er, e) refl,
        (λ x y.
            count_by-append (λ c. in_span c.x0 c.x1 x && (c.parent.y == y)) row rest
            ∙ rw (here x y, later x y)
                (join_rows (in_span b.x0 b.x1 x) s n y (run_owners (rows s) x)
                  (run_owners (rows y) x)
                  (λ t. ap (λ k. run_owners (rows k) x) ((==_iff s y).0 t)))),
      )

-- For a window inside the layout, where the canonical runs of each row carry its number, the slices of
-- the window exist and own each pixel of the window as often as the canonical runs of its row do, and
-- no pixel outside: overlapping windows make no new owners.
pub iter_owned_runs_for_bbox-owners :
    (h w : ℕ) (rows : ℕ → List OwnedRun) (b : BoundingBox) (tile role : String)
    → b.x1 ≤ w
    → b.y1 ≤ h
    → b.y0 ≤ b.y1
    → ((y : ℕ) → AreOfRow y (rows y))
    → (slices : List OwnedRunSlice) × (iter_owned_runs_for_bbox h w rows b tile role ≡ ok slices)
      × ((x y : ℕ)
          → slice_owners slices x y
            ≡ (if in_span b.y0 b.y1 y && in_span b.x0 b.x1 x then run_owners (rows y) x else 0))
unfolding iter_owned_runs_for_bbox
iter_owned_runs_for_bbox-owners h w rows b tile role hw hh ho of_row =
    let (slices, e, count) = clip_rows-owners b tile role rows of_row (b.y1 - b.y0) b.y0 in
    let reach : b.y0 + (b.y1 - b.y0) ≡ b.y1 = omega arith in
    (slices, ground (arith, e), rw reach at count)
