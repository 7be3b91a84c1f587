-- ===== src/Streaming/Work/Union.antt =====
-- record_forward_core: the incremental union of nested or disjoint rectangles is exact.
use open_litho_hub.Base.{
  ℕ, ◌+◌, ◌-◌, ◌≤◌, ◌<◌, ◌≡◌, refl, true, false, ◌&&◌, ◌⊎◌, inl, inr, List, [], ◌∷◌, ◌++◌,
  if◌then◌else◌, sum_by, count_by, All, arith, tally, sum_by-append, Bool-cases,
}
use open_litho_hub.Streaming.Geometry.{BoundingBox, area}
use open_litho_hub.Streaming.Geometry.Pixels.{owners, has_pixel, owners-append}
use open_litho_hub.Streaming.Work.{
  Work, same_box, contains, any_contains, absorbed, remove_first, drop_covers, record_forward_core,
}

-- How often a box stands in a list.
abbrev times : BoundingBox → List BoundingBox → ℕ
times b l = count_by (same_box b) l

same_box-eq : (a b : BoundingBox) → same_box a b ≡ true → a ≡ b
unfolding same_box
same_box-eq a b h = ground arith

same_box_comm : (a b : BoundingBox) → same_box a b ≡ same_box b a
unfolding same_box
same_box_comm a b = ground arith

same_box_self : (a : BoundingBox) → same_box a a ≡ true
unfolding same_box
same_box_self a = ground arith

-- What removing a box that is there takes away.
record IsTaken (b : BoundingBox) (l l' : List BoundingBox) : Type 0 where
  pixels : sum_by area l' + area b ≡ sum_by area l
  owned : (x y : ℕ) → owners l' x y + tally (has_pixel b x y) ≡ owners l x y
  left : (c : BoundingBox) → times c l' + tally (same_box c b) ≡ times c l

remove_first-IsTaken :
    (b : BoundingBox) (l : List BoundingBox) → 0 < times b l → IsTaken b l (remove_first b l)
unfolding remove_first
remove_first-IsTaken b [] h = absurd (omega arith)
remove_first-IsTaken b (a ∷ l) h = elim (Bool-cases (same_box a b)) [
  | inl same ↦
      let e = same_box-eq a b same in
      rw (same, e)
        (record { pixels = omega arith; owned = λ x y. omega arith; left = λ c. omega arith })
  | inr other ↦
      let p = remove_first-IsTaken b l (ground (arith, same_box_comm b a)) in
      rw other (record {
        pixels = omega (arith, p.pixels);
        owned = λ x y. omega (arith, p.owned x y);
        left = λ c. omega (arith, p.left c);
      })
]

-- What the loop over the absorbed covers leaves.
record IsDropped (covers l : List BoundingBox) (r : ℕ × List BoundingBox) : Type 0 where
  counted : r.0 ≡ sum_by area r.1
  owned : (x y : ℕ) → owners r.1 x y + owners covers x y ≡ owners l x y

drop_covers-IsDropped :
    (covers : List BoundingBox) (pixels : ℕ) (l : List BoundingBox)
    → ((c : BoundingBox) → times c covers ≤ times c l)
    → pixels ≡ sum_by area l
    → IsDropped covers l (drop_covers covers pixels l)
unfolding drop_covers
drop_covers-IsDropped [] pixels l there e = record { counted = e; owned = λ x y. omega arith }
drop_covers-IsDropped (cover ∷ covers) pixels l there e =
    let t = remove_first-IsTaken cover l (ground (arith, there cover, same_box_self cover)) in
    let rest =
      drop_covers-IsDropped covers (pixels - area cover) (remove_first cover l)
        (λ c. ground (arith, there c, t.left c)) (omega (arith, e, t.pixels)) in
    record { counted = rest.counted; owned = λ x y. omega (arith, rest.owned x y, t.owned x y) }

times-absorbed-le :
    (core : BoundingBox) (l : List BoundingBox) (c : BoundingBox)
    → times c (absorbed core l) ≤ times c l
unfolding absorbed
times-absorbed-le core [] c = omega arith
times-absorbed-le core (a ∷ l) c = ground (arith, times-absorbed-le core l c)

-- Two boxes of which one lies in the other, or that share no pixel.
abbrev pub NestedOrDisjoint : BoundingBox → BoundingBox → Type 0
NestedOrDisjoint a b =
    (contains a b ≡ true)
    ⊎ (contains b a ≡ true)
    ⊎ ((x y : ℕ) → (has_pixel a x y && has_pixel b x y) ≡ false)

contains-has_pixel :
    (outer inner : BoundingBox) (x y : ℕ)
    → contains outer inner ≡ true
    → has_pixel inner x y ≡ true
    → has_pixel outer x y ≡ true
unfolding contains
contains-has_pixel o i x y h k = ground arith

-- Outside the core none of the absorbed covers owns a pixel.
absorbed-outside :
    (core : BoundingBox) (l : List BoundingBox) (x y : ℕ)
    → has_pixel core x y ≡ false
    → owners (absorbed core l) x y ≡ 0
unfolding absorbed
absorbed-outside core [] x y h = refl
absorbed-outside core (a ∷ l) x y h =
    ground (arith, absorbed-outside core l x y, contains-has_pixel core a x y)

-- Inside the core every owner is absorbed, if no cover contains the core.
absorbed-inside :
    (core : BoundingBox) (l : List BoundingBox) (x y : ℕ)
    → All (NestedOrDisjoint core) l
    → any_contains l core ≡ false
    → has_pixel core x y ≡ true
    → owners (absorbed core l) x y ≡ owners l x y
unfolding absorbed any_contains
absorbed-inside core [] x y n h k = refl
absorbed-inside core (a ∷ l) x y (inl in_core, n) h k = ground (arith, absorbed-inside core l x y n)
absorbed-inside core (a ∷ l) x y (inr (inl in_cover), n) h k =
    ground (arith, absorbed-inside core l x y n)
absorbed-inside core (a ∷ l) x y (inr (inr apart), n) h k =
    ground (arith, absorbed-inside core l x y n, apart x y)

any_contains-owned :
    (core : BoundingBox) (l : List BoundingBox) (x y : ℕ)
    → any_contains l core ≡ true
    → has_pixel core x y ≡ true
    → 0 < owners l x y
unfolding any_contains
any_contains-owned core [] x y h k = cc
any_contains-owned core (a ∷ l) x y h k =
    ground (arith, any_contains-owned core l x y, contains-has_pixel a core x y)

module _ {K : Type 0} where
  -- The counter is the area of the union, and no pixel of the union is there twice.
  pub record IsLedger (w : Work K) : Type 0 where
    pub counted : w.unique_forward_pixels ≡ sum_by area w.forward_union
    pub once : (x y : ℕ) → owners w.forward_union x y ≤ 1

  -- What recording the core makes of the ledger.
  pub record IsRecorded (core : BoundingBox) (w w' : Work K) : Type 0 where
    pub ledger : IsLedger w'
    pub pixels :
        (x y : ℕ)
        → owners w'.forward_union x y
          ≡ (if has_pixel core x y then 1 else owners w.forward_union x y)

  record_forward_core-covered :
      (core : BoundingBox) (w : Work K)
      → IsLedger w
      → any_contains w.forward_union core ≡ true
      → IsRecorded core w (record_forward_core core w)
  unfolding record_forward_core
  record_forward_core-covered core w l c = rw c (record {
    ledger = l;
    pixels = λ x y. ground (arith, any_contains-owned core w.forward_union x y c, l.once x y);
  })

  record_forward_core-grown :
      (core : BoundingBox) (w : Work K)
      → IsLedger w
      → All (NestedOrDisjoint core) w.forward_union
      → any_contains w.forward_union core ≡ false
      → IsRecorded core w (record_forward_core core w)
  unfolding record_forward_core
  record_forward_core-grown core w l n c =
      let union = w.forward_union in
      let gone = absorbed core union in
      let d =
        drop_covers-IsDropped gone w.unique_forward_pixels union (times-absorbed-le core union)
          l.counted in
      let r = drop_covers gone w.unique_forward_pixels union in
      let exact : (x y : ℕ)
          → owners (r.1 ++ core ∷ []) x y ≡ (if has_pixel core x y then 1 else owners union x y) =
        λ x y. ground (
          arith,
          d.owned x y,
          owners-append r.1 (core ∷ []) x y,
          absorbed-outside core union x y,
          absorbed-inside core union x y n c,
        ) in
      rw c (record {
        ledger = record {
          counted = omega (arith, d.counted, sum_by-append area r.1 (core ∷ []));
          once = λ x y. ground (arith, exact x y, l.once x y);
        };
        pixels = exact;
      })

  -- Recording a core that is nested with or disjoint from every rectangle of the union keeps the
  -- counter equal to the area of the union and the union free of overlaps, and adds to the union
  -- exactly the pixels of the core.
  pub record_forward_core-IsRecorded :
      (core : BoundingBox) (w : Work K)
      → IsLedger w
      → All (NestedOrDisjoint core) w.forward_union
      → IsRecorded core w (record_forward_core core w)
  record_forward_core-IsRecorded core w l n =
      elim (Bool-cases (any_contains w.forward_union core)) [
        | inl c ↦ record_forward_core-covered core w l c
        | inr c ↦ record_forward_core-grown core w l n c
      ]
