-- ===== src/Cache/Index.antt =====
-- The index of the first-level data cache (core/src/cache.cpp, core/include/opm/cpu.hpp): eight ways in
-- each of 128 sets, the search of a set and the choice of a way for a new block.
use open_power_mac.Prelude.{
  ℕ, zero, suc, ◌+◌, Bool, Option, none, some, not, has, ◌==◌, ltb, if◌then◌else◌, update, u32,
  bit_and, not32, false, ◌>>>◌,
}
use open_power_mac.Cache.Bytes.{Line, set_of, tv_of, block_base}
use open_power_mac.Cache.Lower.{Lower}

-- One way of a set: `tv` and `age` of DIdx, `b` and `d` of DLine.
pub record Way : Type 0 where
  pub tv : ℕ
  pub age : ℕ
  pub b : Line
  pub d : Bool

-- The arrays l1x and l1d with the clock of the ages, and everything below.
pub record Cache (S : Type 0) : Type 0 where
  pub ways : ℕ → ℕ → Way
  pub clock : ℕ
  pub below : S

unfoldable pub find_from : ℕ → ℕ → (ℕ → Way) → ℕ → Option ℕ
find_from zero w x want = none
find_from (suc n) w x want =
    let rest = find_from n (suc w) x want in if (x w).tv == want then some w else rest

-- Where the search for a victim ends: at the first invalid way, or with the oldest of all.
pub data Choice : Type 0 where
  free : ℕ → Choice
  oldest : ℕ → Choice

unfoldable pub choose_from : ℕ → ℕ → ℕ → (ℕ → Way) → Choice
choose_from zero w best x = oldest best
choose_from (suc n) w best x =
    let rest = choose_from n (suc w) (if ltb (x w).age (x best).age then w else best) x in
    if not (has (x w).tv 1) then free w else rest

module _ {S : Type 0} where
  unfoldable pub set_way : ℕ → ℕ → Way → Cache S → Cache S
  set_way set w e c = record c { ways = update c.ways set (update (c.ways set) w e) }

  -- `age[w] = ++l1dClock`.
  unfoldable pub stamp : ℕ → ℕ → Cache S → Cache S
  stamp set w c =
      let now = u32 (c.clock + 1) in
      record (set_way set w (record (c.ways set w) { age = now }) c) { clock = now }

  unfoldable pub line_way_quiet : ℕ → Cache S → Option ℕ
  line_way_quiet pa c = find_from 8 0 (c.ways (set_of pa)) (tv_of pa)

  unfoldable pub age_of_hit : ℕ → Option ℕ → Cache S → Cache S
  age_of_hit pa none c = c
  age_of_hit pa (some w) c = stamp (set_of pa) w c

  unfoldable pub line_way : ℕ → Cache S → Option ℕ × Cache S
  line_way pa c = let r = line_way_quiet pa c in (r, age_of_hit pa r c)

  -- `l1x[set].tv[w] = t`.
  unfoldable pub set_tv : ℕ → ℕ → ℕ → Cache S → Cache S
  set_tv set w t c = set_way set w (record (c.ways set w) { tv = t }) c

  unfoldable pub set_dirty : ℕ → ℕ → Bool → Cache S → Cache S
  set_dirty set w v c = set_way set w (record (c.ways set w) { d = v }) c

  unfoldable pub on_below : (S → S) → Cache S → Cache S
  on_below f c = record c { below = f c.below }

module _ {S : Type 0} (lo : Lower S) where
  unfoldable pub line_castout : ℕ → ℕ → ℕ → Cache S → Cache S
  line_castout set w tag c =
      set_dirty set w false (on_below (lo.castout (block_base set tag) (c.ways set w).b) c)

  unfoldable pub line_push : ℕ → ℕ → ℕ → Cache S → Cache S
  line_push set w tag c =
      set_dirty set w false (on_below (lo.push (block_base set tag) (c.ways set w).b) c)

  unfoldable pub line_fill : ℕ → ℕ → ℕ → Cache S → Cache S
  line_fill set w pa c =
      let (b, s) = lo.reload (bit_and pa (not32 31)) c.below in
      let e = record (c.ways set w) { b = b; tv = tv_of pa; d = false } in
      set_way set w e (record c { below = s })

  -- The way at the end of the search, emptied.
  unfoldable pub vacate : ℕ → Choice → Cache S → ℕ × Cache S
  vacate set (free w) c = (w, c)
  vacate set (oldest best) c =
      let c' =
        if (c.ways set best).d then line_castout set best ((c.ways set best).tv >>> 1) c else c in
      (best, set_tv set best 0 c')

  unfoldable pub line_victim : ℕ → Cache S → ℕ × Cache S
  line_victim pa c = vacate (set_of pa) (choose_from 8 0 0 (c.ways (set_of pa))) c
