-- ===== src/OpenPic/Registers.antt =====
-- iack, read, write and setLine of machine/src/openpic.cpp.
use open_power_mac.Prelude.{
  ℕ, ◌+◌, ◌*◌, ◌%◌, ◌^◌, Bool, true, false, not, ◌&&◌, ◌||◌, none, some, [], ◌∷◌, ◌++◌, bit_and,
  bit_or, if◌then◌else◌, ltb, leb, ◌==◌, has, ◌>>>◌, sub32, shl32, not32, update, length,
}
use open_power_mac.OpenPic.State.{OpenPic, vp_write, ack, eoi, sources, swap32, now, note}
use open_power_mac.OpenPic.Scan.{highest_pending}

-- The source `s` goes into service. An edge is consumed; a level stays pending while its line is high.
unfoldable pub take_source : OpenPic → ℕ → ℕ × OpenPic
unfolding note
take_source p s = (
  bit_and (p.vp s) 0xff,
  record p {
    pending =
        if not (has (p.vp s) 0x0040_0000) || not (p.line s)
        then update p.pending s false
        else p.pending;
    in_service = some s;
    log = note ack s p;
  },
)

-- The acknowledge: the vector, and the controller with the source in service.
unfoldable pub iack : OpenPic → ℕ × OpenPic
iack p = elim (highest_pending p) [ none ↦ (p.spurious, p) | some s ↦ take_source p s ]

abbrev pub in_source_window : ℕ → Bool
in_source_window off = ltb (sub32 off 0x1_0000) (sources * 0x20)

abbrev pub in_global_window : ℕ → Bool
in_global_window off = ltb (sub32 off 0x1000) 0x1000

abbrev pub source_of : ℕ → ℕ
source_of off = sub32 off 0x1_0000 >>> 5

abbrev pub global_index : ℕ → ℕ
global_index off = sub32 off 0x1000 >>> 2

unfoldable pub read_source : OpenPic → ℕ → ℕ → ℕ
read_source p off src =
    let native : ℕ = if has off 0x10 then p.dest src else p.vp src in
    if p.pending src && not (has off 0x10) then bit_or native 0x4000_0000 else native

-- The register at an offset, in the guest's byte order.
unfoldable pub read_native : OpenPic → ℕ → ℕ × OpenPic
read_native p off =
    if in_source_window off
    then (read_source p off (source_of off), p)
    else if in_global_window off
    then (p.global (global_index off), p)
    else if off == 0x2_00a0
    then iack p
    else if off == 0x2_0080
    then (p.task_pri, p)
    else (0, p)

unfoldable pub read : OpenPic → ℕ → ℕ → ℕ × OpenPic
read p off len = let r = read_native p off in (if len == 4 then swap32 r.0 else r.0, r.1)

-- A write to a source's vector and priority.
unfoldable pub write_vp : OpenPic → ℕ → ℕ → OpenPic
unfolding note
write_vp p src native = record p {
  vp = update p.vp src (bit_and native (not32 0x4000_0000));
  log = note vp_write (bit_or (shl32 src 24) (bit_and native 0x80ff_ffff)) p;
  pending =
      if not (has native 0x8000_0000) && p.line src then update p.pending src true else p.pending;
}

unfoldable pub write_native : OpenPic → ℕ → ℕ → OpenPic
unfolding note now
write_native p off native =
    if in_source_window off
    then if has off 0x10
      then record p { dest = update p.dest (source_of off) native }
      else write_vp p (source_of off) native
    else if in_global_window off
    then record p {
      global = update p.global (global_index off) native;
      spurious = if off == 0x10e0 then bit_and native 0xff else p.spurious;
    }
    else if off == 0x2_0080
    then record p { task_pri = bit_and native 0xf }
    else if off == 0x2_00b0
    then record p { log = note eoi 0 p; in_service = none }
    else record p {
      unclaimed =
          if ltb (length p.unclaimed) 256
          then p.unclaimed ++ record { at = now p; off = off; val = native } ∷ []
          else p.unclaimed;
    }

unfoldable pub write : OpenPic → ℕ → ℕ → ℕ → OpenPic
write p off v len = write_native p off (if len == 4 then swap32 v else v)

abbrev pub count_slot : ℕ → ℕ
count_slot src = if ltb src 64 then src else 63

-- The line going up pends the source and counts the raise.
unfoldable pub raise_line : OpenPic → ℕ → Bool → OpenPic
raise_line p src level =
    if level && not (p.line src)
    then record p {
      pending = update p.pending src true;
      raise_count =
          update p.raise_count (count_slot src) ((p.raise_count (count_slot src) + 1) % 2 ^ 64);
    }
    else p

unfoldable pub set_line : OpenPic → ℕ → Bool → OpenPic
set_line p src level =
    if leb sources src
    then p
    else let q = raise_line p src level in
      record q {
        line = update q.line src level;
        pending =
            if not level && has (q.vp src) 0x0040_0000
            then update q.pending src false
            else q.pending;
      }
