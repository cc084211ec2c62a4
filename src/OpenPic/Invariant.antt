-- ===== src/OpenPic/Invariant.antt =====
-- The well-formedness of the controller (machine/src/openpic.cpp), and that each operation keeps it.
use open_power_mac.Prelude.{
  ℕ, ◌+◌, ◌^◌, ◌≤◌, ◌<◌, ◌≡◌, ◌∙◌, sym, ap, Bool, true, false, not, ◌&&◌, Option, none, some, List,
  [], ◌∷◌, ◌++◌, arith, ltb, leb, ◌==◌, if◌then◌else◌, Bool-cases, Option-cases, inl, inr, bit_and,
  has, update, not32, length, length-append, dec_eq, update_same, update_other, subst,
}
use open_power_mac.Prelude.BitLaws.{
  bit, bit_and-lt_right, bit_and-le, bit-and, bit_power_self, bit-complement, bit_of_zero,
}
use open_power_mac.OpenPic.State.{OpenPic, reset, EvKind, ack, vp_write, eoi, sources, note}
use open_power_mac.OpenPic.Scan.{highest_pending}
use open_power_mac.OpenPic.Registers.{
  iack, take_source, read, read_native, write, write_native, write_vp, set_line, raise_line,
  source_of, global_index, count_slot, read_source, in_source_window, in_global_window,
}
use open_power_mac.OpenPic.Priority.{Chosen, highest_pending-Chosen}
use open_power_mac.OpenPic.Window.{swap32-lt}
use open_power_mac.OpenPic.Delivery.{iack-some, iack-none}
use native.Mathlib.Nat.{mod-lt}

abbrev pub InRange : Option ℕ → Type 0
InRange none = Unit {0}
InRange (some s) = s < 64

-- Every register holds a word, the ACTIVITY bit is never stored, the masked registers hold what
-- their masks leave, a source in service is one of the 64, and the two logs respect their caps.
pub record IsValid (p : OpenPic) : Type 0 where
  pub vp_word : (s : ℕ) → p.vp s < 2 ^ 32
  pub no_activity : (s : ℕ) → bit (p.vp s) 30 ≡ 0
  pub dest_word : (s : ℕ) → p.dest s < 2 ^ 32
  pub global_word : (i : ℕ) → p.global i < 2 ^ 32
  pub count_word : (s : ℕ) → p.raise_count s < 2 ^ 64
  pub task : p.task_pri ≤ 0xf
  pub spurious_byte : p.spurious ≤ 0xff
  pub serving : InRange p.in_service
  pub log_cap : length p.log ≤ 512
  pub unclaimed_cap : length p.unclaimed ≤ 256

update-All :
    (P : ℕ → Type 0) (f : ℕ → ℕ) (i v : ℕ)
    → ((j : ℕ) → P (f j))
    → P v
    → (j : ℕ) → P (update f i v j)
update-All P f i v h k j = elim (dec_eq j i) [
  | yes e ↦ subst P (sym (ap (update f i v) e ∙ update_same f i v)) k
  | no ne ↦ subst P (sym (update_other f i j v ne)) (h j)
]

length_push {ℓ} :
    {A : Type ℓ} (n : ℕ) (xs : List A) (x : A)
    → length xs ≤ n
    → length (if ltb (length xs) n then xs ++ x ∷ [] else xs) ≤ n
length_push n xs x h = elim (Bool-cases (ltb (length xs) n)) [
  | inl room ↦ rw room (ground (arith, length-append xs (x ∷ [])))
  | inr full ↦ rw full h
]

length-note : (k : EvKind) (v : ℕ) (p : OpenPic) → length p.log ≤ 512 → length (note k v p) ≤ 512
unfolding note
length-note k v p h = length_push 512 p.log _ h

low_byte : (x : ℕ) → bit_and x 0xff ≤ 0xff
low_byte x = omega (arith, bit_and-lt_right 8 x 0xff (omega arith))

low_nibble : (x : ℕ) → bit_and x 0xf ≤ 0xf
low_nibble x = omega (arith, bit_and-lt_right 4 x 0xf (omega arith))

cleared_activity : (n : ℕ) → bit (bit_and n (not32 0x4000_0000)) 30 ≡ 0
cleared_activity n =
    rw (bit-and, bit-complement 32 (2 ^ 30) 30 (omega arith) (omega arith), bit_power_self 30)
      (omega arith)

-- A branch is well-formed if both its sides are.
IsValid-if : (b : Bool) (x y : OpenPic) → IsValid x → IsValid y → IsValid (if b then x else y)
IsValid-if true x y h k = h
IsValid-if false x y h k = k

IsValid-if' :
    (b : Bool) (x y : ℕ × OpenPic) → IsValid x.1 → IsValid y.1 → IsValid (if b then x else y).1
IsValid-if' true x y h k = h
IsValid-if' false x y h k = k

module _ (p : OpenPic) (v : IsValid p) where
  take_source-IsValid : (s : ℕ) → s < 64 → IsValid (take_source p s).1
  unfolding take_source
  take_source-IsValid s lt = record {
    vp_word = v.vp_word;
    no_activity = v.no_activity;
    dest_word = v.dest_word;
    global_word = v.global_word;
    count_word = v.count_word;
    task = v.task;
    spurious_byte = v.spurious_byte;
    serving = lt;
    log_cap = length-note ack s p v.log_cap;
    unclaimed_cap = v.unclaimed_cap;
  }

  iack-IsValid : IsValid (iack p).1
  iack-IsValid = elim (Option-cases (highest_pending p)) [
    | inl empty ↦ rw (iack-none p empty) v
    | inr (s, e) ↦
        let high : Chosen p (some s) = subst (Chosen p) e (highest_pending-Chosen p) in
        rw (iack-some p e) (take_source-IsValid s high.0)
  ]

  read_native-IsValid : (off : ℕ) → IsValid (read_native p off).1
  unfolding read_native
  read_native-IsValid off =
      IsValid-if' (in_source_window off) (read_source p off (source_of off), p) _ v
        (IsValid-if' (in_global_window off) (p.global (global_index off), p) _ v
          (IsValid-if' (off == 0x2_00a0) (iack p) _ iack-IsValid
            (IsValid-if' (off == 0x2_0080) (p.task_pri, p) _ v v)))

  write_vp-IsValid : (s n : ℕ) → n < 2 ^ 32 → IsValid (write_vp p s n)
  unfolding write_vp
  write_vp-IsValid s n small = record {
    vp_word =
        update-All (λ x. x < 2 ^ 32) p.vp s _ v.vp_word
          (omega (arith, bit_and-le n (not32 0x4000_0000)));
    no_activity = update-All (λ x. bit x 30 ≡ 0) p.vp s _ v.no_activity (cleared_activity n);
    dest_word = v.dest_word;
    global_word = v.global_word;
    count_word = v.count_word;
    task = v.task;
    spurious_byte = v.spurious_byte;
    serving = v.serving;
    log_cap = length-note vp_write _ p v.log_cap;
    unclaimed_cap = v.unclaimed_cap;
  }

  write_native-IsValid : (off n : ℕ) → n < 2 ^ 32 → IsValid (write_native p off n)
  unfolding write_native
  write_native-IsValid off n small =
      IsValid-if (in_source_window off) _ _
        (IsValid-if (has off 0x10) _ _
          (record {
            vp_word = v.vp_word;
            no_activity = v.no_activity;
            dest_word = update-All (λ x. x < 2 ^ 32) p.dest _ n v.dest_word small;
            global_word = v.global_word;
            count_word = v.count_word;
            task = v.task;
            spurious_byte = v.spurious_byte;
            serving = v.serving;
            log_cap = v.log_cap;
            unclaimed_cap = v.unclaimed_cap;
          })
          (write_vp-IsValid (source_of off) n small))
        (IsValid-if (in_global_window off) _ _
          (record {
            vp_word = v.vp_word;
            no_activity = v.no_activity;
            dest_word = v.dest_word;
            global_word = update-All (λ x. x < 2 ^ 32) p.global _ n v.global_word small;
            count_word = v.count_word;
            task = v.task;
            spurious_byte = ground (arith, low_byte n, v.spurious_byte);
            serving = v.serving;
            log_cap = v.log_cap;
            unclaimed_cap = v.unclaimed_cap;
          })
          (IsValid-if (off == 0x2_0080) _ _
            (record {
              vp_word = v.vp_word;
              no_activity = v.no_activity;
              dest_word = v.dest_word;
              global_word = v.global_word;
              count_word = v.count_word;
              task = low_nibble n;
              spurious_byte = v.spurious_byte;
              serving = v.serving;
              log_cap = v.log_cap;
              unclaimed_cap = v.unclaimed_cap;
            })
            (IsValid-if (off == 0x2_00b0) _ _
              (record {
                vp_word = v.vp_word;
                no_activity = v.no_activity;
                dest_word = v.dest_word;
                global_word = v.global_word;
                count_word = v.count_word;
                task = v.task;
                spurious_byte = v.spurious_byte;
                serving = tt;
                log_cap = length-note eoi 0 p v.log_cap;
                unclaimed_cap = v.unclaimed_cap;
              })
              (record {
                vp_word = v.vp_word;
                no_activity = v.no_activity;
                dest_word = v.dest_word;
                global_word = v.global_word;
                count_word = v.count_word;
                task = v.task;
                spurious_byte = v.spurious_byte;
                serving = v.serving;
                log_cap = v.log_cap;
                unclaimed_cap = length_push 256 p.unclaimed _ v.unclaimed_cap;
              }))))

  raise_line-IsValid : (s : ℕ) (level : Bool) → IsValid (raise_line p s level)
  unfolding raise_line
  raise_line-IsValid s level =
      IsValid-if (level && not (p.line s)) _ _
        (record {
          vp_word = v.vp_word;
          no_activity = v.no_activity;
          dest_word = v.dest_word;
          global_word = v.global_word;
          count_word =
              update-All (λ x. x < 2 ^ 64) p.raise_count _ _ v.count_word
                (mod-lt (p.raise_count (count_slot s) + 1) (omega arith));
          task = v.task;
          spurious_byte = v.spurious_byte;
          serving = v.serving;
          log_cap = v.log_cap;
          unclaimed_cap = v.unclaimed_cap;
        })
        v

-- Moving the pending flags and lines alone keeps a controller well-formed.
relined :
    (p : OpenPic) (line pending : ℕ → Bool)
    → IsValid p
    → IsValid (record p { line = line; pending = pending })
relined p line pending v = record {
  vp_word = v.vp_word;
  no_activity = v.no_activity;
  dest_word = v.dest_word;
  global_word = v.global_word;
  count_word = v.count_word;
  task = v.task;
  spurious_byte = v.spurious_byte;
  serving = v.serving;
  log_cap = v.log_cap;
  unclaimed_cap = v.unclaimed_cap;
}

-- Every access through the window, of a word where it stores one, and every change of a line keeps
-- a well-formed controller well-formed.
pub accesses-IsValid :
    (p : OpenPic)
    → IsValid p
    → ((off len : ℕ) → IsValid (read p off len).1)
      × ((off n len : ℕ) → n < 2 ^ 32 → IsValid (write p off n len))
      × ((s : ℕ) (level : Bool) → IsValid (set_line p s level))
unfolding read write set_line
accesses-IsValid p v = (
  λ off len. read_native-IsValid p v off,
  λ off n len small. write_native-IsValid p v off _ (ground (arith, swap32-lt n small)),
  λ s level.
      IsValid-if (leb sources s) _ _ v
        (relined (raise_line p s level) _ _ (raise_line-IsValid p v s level)),
)

pub reset-IsValid : IsValid reset
reset-IsValid = record {
  vp_word = λ s. omega arith;
  no_activity = λ s. bit_of_zero 30;
  dest_word = λ s. omega arith;
  global_word = λ s. omega arith;
  count_word = λ s. omega arith;
  task = omega arith;
  spurious_byte = omega arith;
  serving = tt;
  log_cap = omega arith;
  unclaimed_cap = omega arith;
}
