-- ===== src/Streaming/Manhattan/Boxes.antt =====
-- write_core of the Manhattan sink: the boxes own the foreground of the core, each pixel once.
use open_litho_hub.Base.{
  ℕ, ◌+◌, ◌≤◌, ◌≡◌, ◌∙◌, refl, Bool, false, ◌&&◌, List, [], ◌∷◌, ◌==◌, if◌then◌else◌, tally, arith,
  Bool-cases, inl, inr, All,
}
use open_litho_hub.Base.Dict.{insert, has_key}
use open_litho_hub.Streaming.Geometry.Pixels.{in_span, owners}
use open_litho_hub.Streaming.Manhattan.{Run, run_eq, OpenRuns, close_runs, open_new, flush_runs}
use open_litho_hub.Streaming.Manhattan.OpenRuns.{sum_keys}

-- The column of the layout is in the run of a core at `x0`.
abbrev pub span : (x0 x : ℕ) → Run → ℕ
span x0 x (a, b) = tally (in_span (x0 + a) (x0 + b) x)

-- The open boxes began at row `y` or above.
abbrev pub StartBy : (y : ℕ) → OpenRuns → Type 0
StartBy y open_runs = All (λ (key, y_start). y_start ≤ y) open_runs

add_row :
    (here : Bool) (next now rest_next rest_now here_count rest_count : ℕ)
    → next ≡ now + (if here then here_count else 0)
    → rest_next ≡ rest_now + (if here then rest_count else 0)
    → next + rest_next ≡ now + rest_now + (if here then here_count + rest_count else 0)
add_row here next now rest_next rest_now here_count rest_count p q = ground (arith, p, q)

module _ (x0 x y : ℕ) where
  pub close_runs-owners :
      (y_end : ℕ) (runs : List Run) (open_runs : OpenRuns)
      → owners (close_runs x0 y_end runs open_runs).0 x y
          + owners (flush_runs x0 y_end (close_runs x0 y_end runs open_runs).1) x y
        ≡ owners (flush_runs x0 y_end open_runs) x y
  unfolding close_runs flush_runs
  close_runs-owners y_end runs [] = refl
  close_runs-owners y_end runs ((key, y_start) ∷ open_runs) =
      ground (arith, close_runs-owners y_end runs open_runs)

  one_row_more :
      (a b y_start y_end : ℕ)
      → y_start ≤ y_end
      → tally (in_span (x0 + a) (x0 + b) x && in_span y_start (y_end + 1) y)
        ≡ tally (in_span (x0 + a) (x0 + b) x && in_span y_start y_end y)
          + (if y == y_end then tally (in_span (x0 + a) (x0 + b) x) else 0)
  one_row_more a b y_start y_end h = ground arith

  pub flush_runs-next :
      (y_end : ℕ) (open_runs : OpenRuns)
      → StartBy y_end open_runs
      → owners (flush_runs x0 (y_end + 1) open_runs) x y
        ≡ owners (flush_runs x0 y_end open_runs) x y
          + (if y == y_end then sum_keys (span x0 x) open_runs else 0)
  unfolding flush_runs
  flush_runs-next y_end [] h = ground arith
  flush_runs-next y_end (((a, b), y_start) ∷ open_runs) h =
      add_row (y == y_end) _ _ _ _ _ _ (one_row_more a b y_start y_end h.0)
        (flush_runs-next y_end open_runs h.1)

  insert-owners :
      (y_end : ℕ) (key : Run) (open_runs : OpenRuns)
      → has_key key open_runs ≡ false
      → owners (flush_runs x0 y_end (insert key y_end open_runs)) x y
        ≡ owners (flush_runs x0 y_end open_runs) x y
  unfolding flush_runs insert has_key
  insert-owners y_end (a, b) [] h = ground arith
  insert-owners y_end key (((c, d), y_start) ∷ open_runs) h =
      ground (arith, insert-owners y_end key open_runs)

  pub open_new-owners :
      (y_end : ℕ) (runs : List Run) (open_runs : OpenRuns)
      → owners (flush_runs x0 y_end (open_new y_end runs open_runs)) x y
        ≡ owners (flush_runs x0 y_end open_runs) x y
  unfolding open_new
  open_new-owners y_end [] open_runs = refl
  open_new-owners y_end (key ∷ runs) open_runs = elim (Bool-cases (has_key key open_runs)) [
    | inl t ↦ rw t (open_new-owners y_end runs open_runs)
    | inr f ↦ rw f (
        open_new-owners y_end runs (insert key y_end open_runs)
        ∙ insert-owners y_end key open_runs f)
  ]

insert-StartBy :
    (y : ℕ) (key : Run) (open_runs : OpenRuns)
    → StartBy y open_runs
    → StartBy y (insert key y open_runs)
unfolding insert
insert-StartBy y key [] h = omega arith
insert-StartBy y key ((k, y_start) ∷ open_runs) h =
    ground (arith, h, insert-StartBy y key open_runs h.1)

pub open_new-StartBy :
    (y : ℕ) (runs : List Run) (open_runs : OpenRuns)
    → StartBy y open_runs
    → StartBy y (open_new y runs open_runs)
unfolding open_new
open_new-StartBy y [] open_runs h = h
open_new-StartBy y (key ∷ runs) open_runs h = elim (Bool-cases (has_key key open_runs)) [
  | inl t ↦ rw t (open_new-StartBy y runs open_runs h)
  | inr f ↦
      rw f (open_new-StartBy y runs (insert key y open_runs) (insert-StartBy y key open_runs h))
]

pub close_runs-StartBy :
    (x0 y : ℕ) (runs : List Run) (open_runs : OpenRuns)
    → StartBy y open_runs
    → StartBy y (close_runs x0 y runs open_runs).1
unfolding close_runs
close_runs-StartBy x0 y runs [] h = tt
close_runs-StartBy x0 y runs ((key, y_start) ∷ open_runs) h =
    ground (arith, h, close_runs-StartBy x0 y runs open_runs h.1)

pub next-StartBy : (y : ℕ) (open_runs : OpenRuns) → StartBy y open_runs → StartBy (y + 1) open_runs
next-StartBy y [] h = tt
next-StartBy y ((key, y_start) ∷ open_runs) h = (omega arith, next-StartBy y open_runs h.1)
