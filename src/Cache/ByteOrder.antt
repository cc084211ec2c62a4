-- ===== src/Cache/ByteOrder.antt =====
-- The byte swaps by which the cache reads and writes a value (lineLoadBE and lineStoreBE of
-- core/src/cache.cpp) against the plain big-endian value of the bytes.
use open_power_mac.Prelude.{
  ℕ, ◌+◌, ◌*◌, ◌^◌, ◌<◌, ◌≡◌, refl, ap, ap₂, ◌∙◌, Bool, true, false, List, [], ◌∷◌, bit_and, bit_or,
  arith, not, length, if◌then◌else◌, ◌>>>◌, u64,
}
use open_power_mac.Prelude.BitLaws.{
  bit_and_low, bit_and-zero, bit_or-zero, zero-bit_or, zero-bit_and, bit_and_parts, bit_or_parts,
}
use open_power_mac.Cache.Bytes.{swap8}

-- The number whose bytes these are, the lowest first.
abbrev pub word : List ℕ → ℕ
word [] = 0
word (x ∷ xs) = x + 2 ^ 8 * word xs

abbrev pub Bytes : List ℕ → Type 0
Bytes [] = Unit
Bytes (x ∷ xs) = (x < 2 ^ 8) × Bytes xs

-- The bytes that a mask of whole bytes keeps, and the mask.
select : List Bool → List ℕ → List ℕ
select (k ∷ ks) (x ∷ xs) = (if k then x else 0) ∷ select ks xs
select ks xs = []

mask : List Bool → List ℕ
mask [] = []
mask (k ∷ ks) = (if k then 255 else 0) ∷ mask ks

-- The bytes of one list where the mask is set, of the other where it is not.
mix : List Bool → List ℕ → List ℕ → List ℕ
mix (k ∷ ks) (x ∷ xs) (y ∷ ys) = (if k then x else y) ∷ mix ks xs ys
mix ks xs ys = []

kept_byte : (k : Bool) (x : ℕ) → x < 2 ^ 8 → bit_and x (if k then 255 else 0) ≡ (if k then x else 0)
kept_byte true x h = bit_and_low 8 x ∙ omega arith
kept_byte false x h = bit_and-zero x

mask_byte : (k : Bool) → (if k then 255 else 0) < 2 ^ 8
mask_byte true = omega arith
mask_byte false = omega arith

select-word :
    (ks : List Bool) (xs : List ℕ)
    → Bytes xs
    → bit_and (word xs) (word (mask ks)) ≡ word (select ks xs)
unfolding select mask
select-word [] [] h = bit_and-zero 0
select-word [] (x ∷ xs) h = bit_and-zero (x + 2 ^ 8 * word xs)
select-word (k ∷ ks) [] h = zero-bit_and _
select-word (k ∷ ks) (x ∷ xs) (h, hs) =
    bit_and_parts 8 x (word xs) (if k then 255 else 0) (word (mask ks)) h (mask_byte k)
    ∙ ap₂ (λ (s t : ℕ). s + 2 ^ 8 * t) (kept_byte k x h) (select-word ks xs hs)

flip : List Bool → List Bool
flip [] = []
flip (k ∷ ks) = not k ∷ flip ks

one_byte :
    (k : Bool) (x y : ℕ)
    → bit_or (if k then x else 0) (if not k then y else 0) ≡ (if k then x else y)
one_byte true x y = bit_or-zero x
one_byte false x y = zero-bit_or y

small_byte : (k : Bool) (x : ℕ) → x < 2 ^ 8 → (if k then x else 0) < 2 ^ 8
small_byte true x h = h
small_byte false x h = omega arith

mix-word :
    (ks : List Bool) (xs ys : List ℕ)
    → Bytes xs
    → Bytes ys
    → length ks ≡ length xs
    → length ks ≡ length ys
    → bit_or (word (select ks xs)) (word (select (flip ks) ys)) ≡ word (mix ks xs ys)
unfolding select flip mix
mix-word [] [] [] h h' l l' = bit_or-zero 0
mix-word [] [] (y ∷ ys) h h' l l' = absurd (omega (arith, l'))
mix-word [] (x ∷ xs) ys h h' l l' = absurd (omega (arith, l))
mix-word (k ∷ ks) [] ys h h' l l' = absurd (omega (arith, l))
mix-word (k ∷ ks) (x ∷ xs) [] h h' l l' = absurd (omega (arith, l'))
mix-word (k ∷ ks) (x ∷ xs) (y ∷ ys) (h, hs) (h', hs') l l' =
    bit_or_parts 8 (if k then x else 0) (word (select ks xs)) (if not k then y else 0)
      (word (select (flip ks) ys)) (small_byte k x h) (small_byte (not k) y h')
    ∙ ap₂ (λ (s t : ℕ). s + 2 ^ 8 * t) (one_byte k x y)
        (mix-word ks xs ys hs hs' (omega arith) (omega arith))

low_byte : 0 < 2 ^ 8
low_byte = omega arith

module _ (a b c d e f g h : ℕ) (ha : a < 2 ^ 8) (hb : b < 2 ^ 8) (hc : c < 2 ^ 8) (hd : d < 2 ^ 8)
    (he : e < 2 ^ 8) (hf : f < 2 ^ 8) (hg : g < 2 ^ 8) (hh : h < 2 ^ 8) where
  pairs_swapped :
      bit_or
        (u64 (bit_and (word (a ∷ b ∷ c ∷ d ∷ e ∷ f ∷ g ∷ h ∷ [])) 0x00ff_00ff_00ff_00ff * 2 ^ 8))
        (bit_and (word (a ∷ b ∷ c ∷ d ∷ e ∷ f ∷ g ∷ h ∷ []) >>> 8) 0x00ff_00ff_00ff_00ff)
      ≡ word (b ∷ a ∷ d ∷ c ∷ f ∷ e ∷ h ∷ g ∷ [])
  unfolding select flip mix mask
  pairs_swapped =
      let ks : List Bool = (true ∷ false ∷ true ∷ false ∷ true ∷ false ∷ true ∷ false ∷ []) in
      let moved : u64 (word (select ks (a ∷ b ∷ c ∷ d ∷ e ∷ f ∷ g ∷ h ∷ [])) * 2 ^ 8)
          ≡ word (select (flip ks) (0 ∷ a ∷ b ∷ c ∷ d ∷ e ∷ f ∷ g ∷ [])) =
        omega arith in
      let shifted : word (a ∷ b ∷ c ∷ d ∷ e ∷ f ∷ g ∷ h ∷ []) >>> 8
          ≡ word (b ∷ c ∷ d ∷ e ∷ f ∷ g ∷ h ∷ 0 ∷ []) =
        omega arith in
      ap₂ bit_or
        (ap (λ (t : ℕ). u64 (t * 2 ^ 8))
            (select-word ks (a ∷ b ∷ c ∷ d ∷ e ∷ f ∷ g ∷ h ∷ [])
              (ha, (hb, (hc, (hd, (he, (hf, (hg, (hh, tt)))))))))
          ∙ moved)
        (ap (λ (t : ℕ). bit_and t 0x00ff_00ff_00ff_00ff) shifted
          ∙ select-word ks (b ∷ c ∷ d ∷ e ∷ f ∷ g ∷ h ∷ 0 ∷ [])
              (hb, (hc, (hd, (he, (hf, (hg, (hh, (low_byte, tt)))))))))
      ∙ mix-word (flip ks) (0 ∷ a ∷ b ∷ c ∷ d ∷ e ∷ f ∷ g ∷ []) (b ∷ c ∷ d ∷ e ∷ f ∷ g ∷ h ∷ 0 ∷ [])
          (low_byte, (ha, (hb, (hc, (hd, (he, (hf, (hg, tt))))))))
          (hb, (hc, (hd, (he, (hf, (hg, (hh, (low_byte, tt)))))))) refl refl

  quads_swapped :
      bit_or
        (u64 (bit_and (word (b ∷ a ∷ d ∷ c ∷ f ∷ e ∷ h ∷ g ∷ [])) 0x0000_ffff_0000_ffff * 2 ^ 16))
        (bit_and (word (b ∷ a ∷ d ∷ c ∷ f ∷ e ∷ h ∷ g ∷ []) >>> 16) 0x0000_ffff_0000_ffff)
      ≡ word (d ∷ c ∷ b ∷ a ∷ h ∷ g ∷ f ∷ e ∷ [])
  unfolding select flip mix mask
  quads_swapped =
      let ks : List Bool = (true ∷ true ∷ false ∷ false ∷ true ∷ true ∷ false ∷ false ∷ []) in
      let moved : u64 (word (select ks (b ∷ a ∷ d ∷ c ∷ f ∷ e ∷ h ∷ g ∷ [])) * 2 ^ 16)
          ≡ word (select (flip ks) (0 ∷ 0 ∷ b ∷ a ∷ d ∷ c ∷ f ∷ e ∷ [])) =
        omega arith in
      let shifted : word (b ∷ a ∷ d ∷ c ∷ f ∷ e ∷ h ∷ g ∷ []) >>> 16
          ≡ word (d ∷ c ∷ f ∷ e ∷ h ∷ g ∷ 0 ∷ 0 ∷ []) =
        omega arith in
      ap₂ bit_or
        (ap (λ (t : ℕ). u64 (t * 2 ^ 16))
            (select-word ks (b ∷ a ∷ d ∷ c ∷ f ∷ e ∷ h ∷ g ∷ [])
              (hb, (ha, (hd, (hc, (hf, (he, (hh, (hg, tt)))))))))
          ∙ moved)
        (ap (λ (t : ℕ). bit_and t 0x0000_ffff_0000_ffff) shifted
          ∙ select-word ks (d ∷ c ∷ f ∷ e ∷ h ∷ g ∷ 0 ∷ 0 ∷ [])
              (hd, (hc, (hf, (he, (hh, (hg, (low_byte, (low_byte, tt)))))))))
      ∙ mix-word (flip ks) (0 ∷ 0 ∷ b ∷ a ∷ d ∷ c ∷ f ∷ e ∷ []) (d ∷ c ∷ f ∷ e ∷ h ∷ g ∷ 0 ∷ 0 ∷ [])
          (low_byte, (low_byte, (hb, (ha, (hd, (hc, (hf, (he, tt))))))))
          (hd, (hc, (hf, (he, (hh, (hg, (low_byte, (low_byte, tt)))))))) refl refl

  -- The bytes of a double word come out in the other order.
  pub swap8-word :
      swap8 (word (a ∷ b ∷ c ∷ d ∷ e ∷ f ∷ g ∷ h ∷ [])) ≡ word (h ∷ g ∷ f ∷ e ∷ d ∷ c ∷ b ∷ a ∷ [])
  unfolding swap8 select flip mix
  swap8-word =
      let v : ℕ = word (d ∷ c ∷ b ∷ a ∷ h ∷ g ∷ f ∷ e ∷ []) in
      let ks : List Bool = (false ∷ false ∷ false ∷ false ∷ true ∷ true ∷ true ∷ true ∷ []) in
      let moved : u64 (v * 2 ^ 32) ≡ word (select ks (0 ∷ 0 ∷ 0 ∷ 0 ∷ d ∷ c ∷ b ∷ a ∷ [])) =
        omega arith in
      let shifted : v >>> 32 ≡ word (select (flip ks) (h ∷ g ∷ f ∷ e ∷ 0 ∷ 0 ∷ 0 ∷ 0 ∷ [])) =
        omega arith in
      ap
        (λ (t : ℕ).
          bit_or
            (u64 (
              bit_or (u64 (bit_and t 0x0000_ffff_0000_ffff * 2 ^ 16))
                (bit_and (t >>> 16) 0x0000_ffff_0000_ffff)
              * 2 ^ 32))
            (bit_or (u64 (bit_and t 0x0000_ffff_0000_ffff * 2 ^ 16))
                (bit_and (t >>> 16) 0x0000_ffff_0000_ffff)
              >>> 32))
        pairs_swapped
      ∙ ap (λ (t : ℕ). bit_or (u64 (t * 2 ^ 32)) (t >>> 32)) quads_swapped
      ∙ ap₂ bit_or moved shifted
      ∙ mix-word ks (0 ∷ 0 ∷ 0 ∷ 0 ∷ d ∷ c ∷ b ∷ a ∷ []) (h ∷ g ∷ f ∷ e ∷ 0 ∷ 0 ∷ 0 ∷ 0 ∷ [])
          (low_byte, (low_byte, (low_byte, (low_byte, (hd, (hc, (hb, (ha, tt))))))))
          (hh, (hg, (hf, (he, (low_byte, (low_byte, (low_byte, (low_byte, tt)))))))) refl refl
