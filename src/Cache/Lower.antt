-- ===== src/Cache/Lower.antt =====
-- What the first-level cache (core/src/cache.cpp) calls below it, on a state S of its own: the second
-- level, the bus and the buffer of fetched blocks.
use open_power_mac.Prelude.{ℕ, ◌^◌, ◌<◌, ◌≡◌, ap, Bool, bit_and, ◌==◌, if◌then◌else◌, ◌>>>◌}
use open_power_mac.Cache.Bytes.{Line}

pub record Lower (S : Type 0) : Type 0 where
  -- The block at a base address for a fill: from the second level, else by a burst read.
  pub reload : ℕ → S → Line × S
  -- A modified block that the first level gives up, and one that dcbf or dcbst pushes out.
  pub castout : ℕ → Line → S → S
  pub push : ℕ → Line → S → S
  -- A burst write.
  pub bus_write_line : ℕ → Line → S → S
  pub l2_invalidate : ℕ → S → S
  -- What the second level does for a bus master: the block, and whether the copy dies.
  pub l2_snoop : ℕ → Bool → S → S
  pub l2_flush_all : Bool → S → S
  pub fetch_drop : S → S
  pub fetch_drop_at : ℕ → S → S
  -- The address and the length; the address, the length and the value.
  pub bus_read : ℕ → ℕ → S → ℕ × S
  pub bus_write : ℕ → ℕ → ℕ → S → S

-- The bytes f with the block at a base address replaced by a line.
unfoldable pub put_line : ℕ → Line → (ℕ → ℕ) → ℕ → ℕ
put_line base b f a = if (a >>> 5) == (base >>> 5) then b (bit_and a 31) else f a

pub put_line_cong :
    (base : ℕ) (b : Line) (f g : ℕ → ℕ) (a : ℕ)
    → f a ≡ g a
    → put_line base b f a ≡ put_line base b g a
unfolding put_line
put_line_cong base b f g a e =
    ap (λ (t : ℕ). if (a >>> 5) == (base >>> 5) then b (bit_and a 31) else t) e

-- A state below that keeps a flat memory of bytes: a reload returns the block and leaves the memory, a
-- castout and a push replace the block, and the buffer of fetched blocks is no part of it.
pub record IsBacking {S : Type 0} (lo : Lower S) (Ok : S → Type 0) (view : S → ℕ → ℕ) : Type 0 where
  pub reload_line :
      (base a : ℕ) (s : S)
      → base < 2 ^ 32
      → Ok s
      → a < 2 ^ 32
      → (a >>> 5) ≡ (base >>> 5)
      → ((lo.reload base s).0) (bit_and a 31) ≡ view s a
  pub reload_view :
      (base a : ℕ) (s : S)
      → base < 2 ^ 32
      → Ok s
      → a < 2 ^ 32
      → view ((lo.reload base s).1) a ≡ view s a
  pub reload-Ok : (base : ℕ) (s : S) → base < 2 ^ 32 → Ok s → Ok (lo.reload base s).1
  pub castout_view :
      (base : ℕ) (b : Line) (a : ℕ) (s : S)
      → base < 2 ^ 32
      → Ok s
      → a < 2 ^ 32
      → view (lo.castout base b s) a ≡ put_line base b (view s) a
  pub castout-Ok : (base : ℕ) (b : Line) (s : S) → base < 2 ^ 32 → Ok s → Ok (lo.castout base b s)
  pub push_view :
      (base : ℕ) (b : Line) (a : ℕ) (s : S)
      → base < 2 ^ 32
      → Ok s
      → a < 2 ^ 32
      → view (lo.push base b s) a ≡ put_line base b (view s) a
  pub push-Ok : (base : ℕ) (b : Line) (s : S) → base < 2 ^ 32 → Ok s → Ok (lo.push base b s)
  pub drop_view : (pa a : ℕ) (s : S) → Ok s → a < 2 ^ 32 → view (lo.fetch_drop_at pa s) a ≡ view s a
  pub drop-Ok : (pa : ℕ) (s : S) → Ok s → Ok (lo.fetch_drop_at pa s)
