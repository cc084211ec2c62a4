-- ===== src/Cache/StoredBytes.antt =====
-- A stored value, a byte at a time (lineStoreBE of core/src/cache.cpp), and the value that a load
-- assembles (lineLoadBE), by the size of the access.
use open_power_mac.Prelude.{
  ℕ, zero, suc, ◌+◌, ◌-◌, ◌*◌, ◌/◌, ◌%◌, ◌^◌, ◌<◌, ◌≡◌, ◌⊎◌, inl, inr, refl, sym, ap, ap₂, ◌∙◌,
  List, [], ◌∷◌, get_or, bit_and, bit_or, arith, if◌then◌else◌, ltb, shl32, ◌>>>◌, u8, u16, u32,
  Bool, subst, ltb→lt, Bool-cases,
}
use native.Mathlib.Nat.{div-div-eq-div-mul, zero-div}
use open_power_mac.Prelude.BitLaws.{
  bit_and_low, bit_and_field, bit_or_disjoint, bit_or_disjoint', pow_split,
}
use open_power_mac.Cache.Bytes.{
  Line, from_host, to_host, swap2, swap4, swap8, line_load_be, line_store_be,
}
use open_power_mac.Cache.ByteOrder.{word, Bytes, swap8-word}

-- The value of n bytes, the first the highest.
unfoldable pub big_endian : ℕ → (ℕ → ℕ) → ℕ
big_endian zero p = 0
big_endian (suc n) p = p 0 * 256 ^ n + big_endian n (λ k. p (suc k))

swap2-word : (a b : ℕ) → a < 2 ^ 8 → b < 2 ^ 8 → swap2 (word (a ∷ b ∷ [])) ≡ word (b ∷ a ∷ [])
unfolding swap2
swap2-word a b ha hb =
    let v : ℕ = a + 2 ^ 8 * (b + 2 ^ 8 * 0) in
    let high : v >>> 8 ≡ b = omega arith in
    ap (λ (t : ℕ). u16 (bit_or t (v * 2 ^ 8))) high
    ∙ ap u16 (bit_or_disjoint' 8 v b hb)
    ∙ omega arith

swap4-word :
    (a b c d : ℕ)
    → a < 2 ^ 8
    → b < 2 ^ 8
    → c < 2 ^ 8
    → d < 2 ^ 8
    → swap4 (word (a ∷ b ∷ c ∷ d ∷ [])) ≡ word (d ∷ c ∷ b ∷ a ∷ [])
unfolding swap4
swap4-word a b c d ha hb hc hd =
    let v : ℕ = a + 2 ^ 8 * (b + 2 ^ 8 * (c + 2 ^ 8 * (d + 2 ^ 8 * 0))) in
    let t3 : shl32 (bit_and v 0xff) 24 ≡ a * 2 ^ 24 = omega (arith, bit_and_low 8 v) in
    let t2 : shl32 (bit_and v 0xff00) 8 ≡ b * 2 ^ 16 = omega (arith, bit_and_field 8 8 v) in
    let t1 : bit_and (v >>> 8) 0xff00 ≡ c * 2 ^ 8 = omega (arith, bit_and_field 8 8 (v >>> 8)) in
    let t0 : v >>> 24 ≡ d = omega arith in
    let two : bit_or (a * 2 ^ 24) (b * 2 ^ 16) ≡ (a * 2 ^ 8 + b) * 2 ^ 16 =
      bit_or_disjoint 24 a (b * 2 ^ 16) (omega arith) ∙ omega arith in
    let three : bit_or ((a * 2 ^ 8 + b) * 2 ^ 16) (c * 2 ^ 8)
        ≡ (a * 2 ^ 16 + b * 2 ^ 8 + c) * 2 ^ 8 =
      bit_or_disjoint 16 (a * 2 ^ 8 + b) (c * 2 ^ 8) (omega arith) ∙ omega arith in
    ap₂ bit_or (ap₂ bit_or (ap₂ bit_or t3 t2 ∙ two) t1 ∙ three) t0
    ∙ bit_or_disjoint 8 (a * 2 ^ 16 + b * 2 ^ 8 + c) d hd
    ∙ omega arith

-- The sizes of an access.
unfoldable pub Size : ℕ → Type 0
Size n = (n ≡ 1) ⊎ ((n ≡ 2) ⊎ ((n ≡ 4) ⊎ (n ≡ 8)))

-- A load is the big-endian value of the bytes.
pub line_load_be_lem :
    (p : Line) (len : ℕ)
    → Size len
    → ((k : ℕ) → k < len → p k < 2 ^ 8)
    → line_load_be p len ≡ big_endian len p
unfolding Size line_load_be from_host big_endian
line_load_be_lem p len (inl e) h =
    subst (λ (n : ℕ). line_load_be p n ≡ big_endian n p) (sym e) (omega arith)
line_load_be_lem p len (inr (inl e)) h =
    let q : (k : ℕ) → k < 2 → p k < 2 ^ 8 = λ k l. h k (omega arith) in
    subst (λ (n : ℕ). line_load_be p n ≡ big_endian n p) (sym e)
      (swap2-word (p 0) (p 1) (q 0 (omega arith)) (q 1 (omega arith)) ∙ omega arith)
line_load_be_lem p len (inr (inr (inl e))) h =
    let q : (k : ℕ) → k < 4 → p k < 2 ^ 8 = λ k l. h k (omega arith) in
    subst (λ (n : ℕ). line_load_be p n ≡ big_endian n p) (sym e)
      (swap4-word (p 0) (p 1) (p 2) (p 3) (q 0 (omega arith)) (q 1 (omega arith))
          (q 2 (omega arith)) (q 3 (omega arith))
        ∙ omega arith)
line_load_be_lem p len (inr (inr (inr e))) h =
    let q : (k : ℕ) → k < 8 → p k < 2 ^ 8 = λ k l. h k (omega arith) in
    subst (λ (n : ℕ). line_load_be p n ≡ big_endian n p) (sym e)
      (swap8-word (p 0) (p 1) (p 2) (p 3) (p 4) (p 5) (p 6) (p 7) (q 0 (omega arith))
          (q 1 (omega arith)) (q 2 (omega arith)) (q 3 (omega arith)) (q 4 (omega arith))
          (q 5 (omega arith)) (q 6 (omega arith)) (q 7 (omega arith))
        ∙ omega arith)

-- One byte of a word.
byte_of-word : (xs : List ℕ) (k : ℕ) → Bytes xs → u8 (word xs >>> (8 * k)) ≡ get_or xs k 0
byte_of-word [] k h = ap u8 (zero-div (2 ^ (8 * k)))
byte_of-word (x ∷ xs) zero (h, hs) = omega arith
byte_of-word (x ∷ xs) (suc k) (h, hs) =
    let split : 2 ^ (8 * suc k) ≡ 2 ^ 8 * 2 ^ (8 * k) =
      ap (λ (t : ℕ). 2 ^ t) (omega arith) ∙ pow_split 8 (8 * k) in
    let rest : (x + 2 ^ 8 * word xs) / 2 ^ 8 ≡ word xs = omega arith in
    ap (λ (t : ℕ). u8 ((x + 2 ^ 8 * word xs) / t)) split
    ∙ ap u8 (sym (div-div-eq-div-mul (x + 2 ^ 8 * word xs) (2 ^ 8) (2 ^ (8 * k))))
    ∙ ap (λ (t : ℕ). u8 (t / 2 ^ (8 * k))) rest
    ∙ byte_of-word xs k hs

mirror2 : (a b k : ℕ) → k < 2 → get_or (b ∷ a ∷ []) k 0 ≡ get_or (a ∷ b ∷ []) (1 - k) 0
mirror2 a b zero hk = refl
mirror2 a b (suc zero) hk = refl
mirror2 a b (suc (suc k)) hk = absurd (omega arith)

stored2 : (v k : ℕ) → v < 2 ^ 16 → k < 2 → u8 (swap2 v >>> (8 * k)) ≡ u8 (v >>> (8 * (1 - k)))
stored2 v k hv hk =
    let a : ℕ = v / 2 ^ 0 % 2 ^ 8 in
    let b : ℕ = v / 2 ^ 8 % 2 ^ 8 in
    let whole : v ≡ word (a ∷ b ∷ []) = omega arith in
    ap (λ (t : ℕ). u8 (t >>> (8 * k))) (ap swap2 whole ∙ swap2-word a b (omega arith) (omega arith))
    ∙ byte_of-word (b ∷ a ∷ []) k (omega arith, (omega arith, tt))
    ∙ mirror2 a b k hk
    ∙ sym (byte_of-word (a ∷ b ∷ []) (1 - k) (omega arith, (omega arith, tt)))
    ∙ ap (λ (t : ℕ). u8 (t >>> (8 * (1 - k)))) (sym whole)

mirror4 :
    (a b c d k : ℕ)
    → k < 4
    → get_or (d ∷ c ∷ b ∷ a ∷ []) k 0 ≡ get_or (a ∷ b ∷ c ∷ d ∷ []) (3 - k) 0
mirror4 a b c d zero hk = refl
mirror4 a b c d (suc zero) hk = refl
mirror4 a b c d (suc (suc zero)) hk = refl
mirror4 a b c d (suc (suc (suc zero))) hk = refl
mirror4 a b c d (suc (suc (suc (suc k)))) hk = absurd (omega arith)

stored4 : (v k : ℕ) → v < 2 ^ 32 → k < 4 → u8 (swap4 v >>> (8 * k)) ≡ u8 (v >>> (8 * (3 - k)))
stored4 v k hv hk =
    let a : ℕ = v / 2 ^ 0 % 2 ^ 8 in
    let b : ℕ = v / 2 ^ 8 % 2 ^ 8 in
    let c : ℕ = v / 2 ^ 16 % 2 ^ 8 in
    let d : ℕ = v / 2 ^ 24 % 2 ^ 8 in
    let whole : v ≡ word (a ∷ b ∷ c ∷ d ∷ []) = omega arith in
    ap (λ (t : ℕ). u8 (t >>> (8 * k)))
      (ap swap4 whole ∙ swap4-word a b c d (omega arith) (omega arith) (omega arith) (omega arith))
    ∙ byte_of-word (d ∷ c ∷ b ∷ a ∷ []) k
        (omega arith, (omega arith, (omega arith, (omega arith, tt))))
    ∙ mirror4 a b c d k hk
    ∙ sym (
        byte_of-word (a ∷ b ∷ c ∷ d ∷ []) (3 - k)
          (omega arith, (omega arith, (omega arith, (omega arith, tt)))))
    ∙ ap (λ (t : ℕ). u8 (t >>> (8 * (3 - k)))) (sym whole)

mirror8 :
    (a b c d e f g h k : ℕ)
    → k < 8
    → get_or (h ∷ g ∷ f ∷ e ∷ d ∷ c ∷ b ∷ a ∷ []) k 0
      ≡ get_or (a ∷ b ∷ c ∷ d ∷ e ∷ f ∷ g ∷ h ∷ []) (7 - k) 0
mirror8 a b c d e f g h zero hk = refl
mirror8 a b c d e f g h (suc zero) hk = refl
mirror8 a b c d e f g h (suc (suc zero)) hk = refl
mirror8 a b c d e f g h (suc (suc (suc zero))) hk = refl
mirror8 a b c d e f g h (suc (suc (suc (suc zero)))) hk = refl
mirror8 a b c d e f g h (suc (suc (suc (suc (suc zero))))) hk = refl
mirror8 a b c d e f g h (suc (suc (suc (suc (suc (suc zero)))))) hk = refl
mirror8 a b c d e f g h (suc (suc (suc (suc (suc (suc (suc zero))))))) hk = refl
mirror8 a b c d e f g h (suc (suc (suc (suc (suc (suc (suc (suc k)))))))) hk = absurd (omega arith)

stored8 : (v k : ℕ) → v < 2 ^ 64 → k < 8 → u8 (swap8 v >>> (8 * k)) ≡ u8 (v >>> (8 * (7 - k)))
stored8 v k hv hk =
    let a : ℕ = v / 2 ^ 0 % 2 ^ 8 in
    let b : ℕ = v / 2 ^ 8 % 2 ^ 8 in
    let c : ℕ = v / 2 ^ 16 % 2 ^ 8 in
    let d : ℕ = v / 2 ^ 24 % 2 ^ 8 in
    let e : ℕ = v / 2 ^ 32 % 2 ^ 8 in
    let f : ℕ = v / 2 ^ 40 % 2 ^ 8 in
    let g : ℕ = v / 2 ^ 48 % 2 ^ 8 in
    let h : ℕ = v / 2 ^ 56 % 2 ^ 8 in
    let whole : v ≡ word (a ∷ b ∷ c ∷ d ∷ e ∷ f ∷ g ∷ h ∷ []) = omega arith in
    ap (λ (t : ℕ). u8 (t >>> (8 * k)))
      (ap swap8 whole
        ∙ swap8-word a b c d e f g h (omega arith) (omega arith) (omega arith) (omega arith)
            (omega arith) (omega arith) (omega arith) (omega arith))
    ∙ byte_of-word (h ∷ g ∷ f ∷ e ∷ d ∷ c ∷ b ∷ a ∷ []) k (
      omega arith,
      (
        omega arith,
        (
          omega arith,
          (omega arith, (omega arith, (omega arith, (omega arith, (omega arith, tt))))),
        ),
      ),
    )
    ∙ mirror8 a b c d e f g h k hk
    ∙ sym (
        byte_of-word (a ∷ b ∷ c ∷ d ∷ e ∷ f ∷ g ∷ h ∷ []) (7 - k) (
          omega arith,
          (
            omega arith,
            (
              omega arith,
              (omega arith, (omega arith, (omega arith, (omega arith, (omega arith, tt))))),
            ),
          ),
        ))
    ∙ ap (λ (t : ℕ). u8 (t >>> (8 * (7 - k)))) (sym whole)

-- The bytes of a value that a cast keeps.
cut1 : (v k : ℕ) → k < 1 → u8 (u8 v >>> (8 * k)) ≡ u8 (v >>> (8 * k))
cut1 v zero h = omega arith
cut1 v (suc k) h = absurd (omega arith)

cut2 : (v k : ℕ) → k < 2 → u8 (u16 v >>> (8 * k)) ≡ u8 (v >>> (8 * k))
cut2 v zero h = omega arith
cut2 v (suc zero) h = omega arith
cut2 v (suc (suc k)) h = absurd (omega arith)

cut4 : (v k : ℕ) → k < 4 → u8 (u32 v >>> (8 * k)) ≡ u8 (v >>> (8 * k))
cut4 v zero h = omega arith
cut4 v (suc zero) h = omega arith
cut4 v (suc (suc zero)) h = omega arith
cut4 v (suc (suc (suc zero))) h = omega arith
cut4 v (suc (suc (suc (suc k)))) h = absurd (omega arith)

by_test :
    (k n x y z : ℕ) → (k < n → x ≡ y) → (if ltb k n then x else z) ≡ (if ltb k n then y else z)
by_test k n x y z e = elim (Bool-cases (ltb k n)) [
  | inl t ↦ ap (λ (s : ℕ). if ltb k n then s else z) (e (ltb→lt k n t))
  | inr f ↦ ap (λ (b : Bool). if b then x else z) f ∙ ap (λ (b : Bool). if b then y else z) (sym f)
]

-- A store writes the bytes of the value, the highest first, and no other byte.
pub line_store_be_lem :
    (p : Line) (len v k : ℕ)
    → Size len
    → v < 2 ^ 64
    → line_store_be p len v k ≡ (if ltb k len then u8 (v >>> (8 * (len - 1 - k))) else p k)
unfolding Size line_store_be to_host
line_store_be_lem p len v k (inl e) h =
    subst
      (λ (n : ℕ). line_store_be p n v k ≡ (if ltb k n then u8 (v >>> (8 * (n - 1 - k))) else p k))
      (sym e)
      (by_test k 1 _ _ (p k)
        (λ low. (let first : k ≡ 0 = omega arith in rw first (cut1 v 0 (omega arith)))))
line_store_be_lem p len v k (inr (inl e)) h =
    subst
      (λ (n : ℕ). line_store_be p n v k ≡ (if ltb k n then u8 (v >>> (8 * (n - 1 - k))) else p k))
      (sym e)
      (by_test k 2 _ _ (p k)
        (λ low. stored2 (u16 v) k (omega arith) low ∙ cut2 v (1 - k) (omega arith)))
line_store_be_lem p len v k (inr (inr (inl e))) h =
    subst
      (λ (n : ℕ). line_store_be p n v k ≡ (if ltb k n then u8 (v >>> (8 * (n - 1 - k))) else p k))
      (sym e)
      (by_test k 4 _ _ (p k)
        (λ low. stored4 (u32 v) k (omega arith) low ∙ cut4 v (3 - k) (omega arith)))
line_store_be_lem p len v k (inr (inr (inr e))) h =
    subst
      (λ (n : ℕ). line_store_be p n v k ≡ (if ltb k n then u8 (v >>> (8 * (n - 1 - k))) else p k))
      (sym e) (by_test k 8 _ _ (p k) (λ low. stored8 v k h low))
