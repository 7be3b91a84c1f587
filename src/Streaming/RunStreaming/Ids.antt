-- ===== src/Streaming/RunStreaming/Ids.antt =====
-- The ids of tiles as the keys of a dict. The formatted texts are equal exactly if the ids are.
use open_litho_hub.Base.{◌==◌, ==_iff, ◌≡◌, refl, Bool, true, false, ◌&&◌, &&-eq-true, subst}
use open_litho_hub.Base.Dict.{Eq}
use open_litho_hub.Base.Text.{string_eq}
use open_litho_hub.Streaming.CoreHalo.{TileId, planned, sub_tile, quarter}

abbrev pub same_id : TileId → TileId → Bool
same_id (planned p i) (planned q j) = string_eq.beq p q && i == j
same_id (sub_tile p i) (sub_tile q j) = same_id p q && i == j
same_id (quarter p i) (quarter q j) = same_id p q && i == j
same_id a b = false

pub same_id_sound : (a b : TileId) → same_id a b ≡ true → a ≡ b
same_id_sound (planned p i) (planned q j) h =
    let (hp, hi) = &&-eq-true (string_eq.beq p q) (i == j) h in
    let ep : p ≡ q = (string_eq.beq_iff p q).0 hp in let ei : i ≡ j = (==_iff i j).0 hi in cc
same_id_sound (sub_tile p i) (sub_tile q j) h =
    let (hp, hi) = &&-eq-true (same_id p q) (i == j) h in
    let ep = same_id_sound p q hp in let ei : i ≡ j = (==_iff i j).0 hi in cc
same_id_sound (quarter p i) (quarter q j) h =
    let (hp, hi) = &&-eq-true (same_id p q) (i == j) h in
    let ep = same_id_sound p q hp in let ei : i ≡ j = (==_iff i j).0 hi in cc
same_id_sound (planned p i) (sub_tile q j) h = absurd (cc)
same_id_sound (planned p i) (quarter q j) h = absurd (cc)
same_id_sound (sub_tile p i) (planned q j) h = absurd (cc)
same_id_sound (sub_tile p i) (quarter q j) h = absurd (cc)
same_id_sound (quarter p i) (planned q j) h = absurd (cc)
same_id_sound (quarter p i) (sub_tile q j) h = absurd (cc)

pub same_id_refl : (a : TileId) → same_id a a ≡ true
same_id_refl (planned p i) =
    let hp = (string_eq.beq_iff p p).1 refl in let hi = (==_iff i i).1 refl in rw (hp, hi) refl
same_id_refl (sub_tile p i) = let hi = (==_iff i i).1 refl in rw (same_id_refl p, hi) refl
same_id_refl (quarter p i) = let hi = (==_iff i i).1 refl in rw (same_id_refl p, hi) refl

instance abbrev pub tile_id_eq : Eq TileId
tile_id_eq = record {
  beq = same_id;
  beq_iff =
      λ a b. (same_id_sound a b, λ same. subst (λ c. same_id a c ≡ true) same (same_id_refl a));
}
