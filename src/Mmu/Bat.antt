-- ===== src/Mmu/Bat.antt =====
-- Block address translation and page protection (core/src/mmu.cpp).
use open_power_mac.Prelude.{
  ℕ, Bool, true, false, not, Option, none, some, List, [], ◌∷◌, bit_and, bit_or, bit_xor,
  if◌then◌else◌, ◌==◌, has, not32, shl32, ◌>>>◌, ◌&&◌,
}

pub record BatHit : Type 0 where
  pub pa : ℕ
  pub pp : ℕ
  pub wimg : ℕ

-- One register pair: whether it maps the address, and to what.
unfoldable pub bat_matches : ℕ → ℕ → Bool → Bool
bat_matches u ea user =
    let bl_mask = bit_and (u >>> 2) 0x7ff in
    has u (if user then 1 else 2)
    && bit_and (bit_xor (ea >>> 17) (u >>> 17)) (bit_and 0x7fff (not32 bl_mask)) == 0

unfoldable pub bat_hit : ℕ → ℕ → ℕ → BatHit
bat_hit u l ea =
    let bl_mask = bit_and (u >>> 2) 0x7ff in
    let pa_hi = bit_or (bit_and (l >>> 17) (not32 bl_mask)) (bit_and (ea >>> 17) bl_mask) in
    record {
      pa = bit_or (shl32 pa_hi 17) (bit_and ea 0x1_ffff);
      pp = bit_and l 3;
      wimg = bit_and (l >>> 3) 0xf;
    }

unfoldable pub bat_scan : (ℕ → ℕ) → (ℕ → ℕ) → ℕ → Bool → List ℕ → Option BatHit
bat_scan batu batl ea user [] = none
bat_scan batu batl ea user (i ∷ is) =
    let rest = bat_scan batu batl ea user is in
    if bat_matches (batu i) ea user then some (bat_hit (batu i) (batl i) ea) else rest

unfoldable pub bat_lookup : (ℕ → ℕ) → (ℕ → ℕ) → ℕ → Bool → Option BatHit
bat_lookup batu batl ea user = bat_scan batu batl ea user (0 ∷ 1 ∷ 2 ∷ 3 ∷ [])

-- The protection of a page by its PP bits and the key of the segment.
unfoldable pub pp_allows : ℕ → Bool → Bool → Bool
pp_allows pp key write =
    if not key
    then (if pp == 3 then not write else true)
    else if pp == 0
    then false
    else if pp == 1
    then not write
    else if pp == 2
    then true
    else not write
