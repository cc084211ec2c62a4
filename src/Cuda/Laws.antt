-- ===== src/Cuda/Laws.antt =====
-- The clock and the parameter memory of the Cuda as its packets set and read them (machine/src/cuda.cpp).
use open_power_mac.Prelude.{
  ℕ, ◌+◌, ◌*◌, ◌^◌, ◌<◌, ◌≡◌, ◌≢◌, refl, ap, ap₂, ◌∙◌, List, [], ◌∷◌, arith, bit_or, shl32, sub32,
  u8, u32, ◌>>>◌, update_same, update_other,
}
use open_power_mac.Prelude.BitLaws.{bit_or_disjoint}
use open_power_mac.Cuda.Packets.{
  Cuda, rtc_base, reply, get_time, set_time, set_pram, pseudo, host_packet,
}

-- The word of four bytes, the highest first.
four_bytes :
    (a b c d : ℕ)
    → a < 2 ^ 8
    → b < 2 ^ 8
    → c < 2 ^ 8
    → d < 2 ^ 8
    → bit_or (bit_or (bit_or (shl32 a 24) (shl32 b 16)) (shl32 c 8)) d
      ≡ a * 2 ^ 24 + b * 2 ^ 16 + c * 2 ^ 8 + d
four_bytes a b c d ha hb hc hd =
    let x : shl32 a 24 ≡ a * 2 ^ 24 = omega arith in
    let y : shl32 b 16 ≡ b * 2 ^ 16 = omega arith in
    let z : shl32 c 8 ≡ c * 2 ^ 8 = omega arith in
    let two : bit_or (a * 2 ^ 24) (b * 2 ^ 16) ≡ (a * 2 ^ 8 + b) * 2 ^ 16 =
      bit_or_disjoint 24 a (b * 2 ^ 16) (omega arith) ∙ omega arith in
    let three : bit_or ((a * 2 ^ 8 + b) * 2 ^ 16) (c * 2 ^ 8)
        ≡ (a * 2 ^ 16 + b * 2 ^ 8 + c) * 2 ^ 8 =
      bit_or_disjoint 16 (a * 2 ^ 8 + b) (c * 2 ^ 8) (omega arith) ∙ omega arith in
    ap₂ bit_or (ap₂ bit_or (ap₂ bit_or x y ∙ two) z ∙ three) refl
    ∙ bit_or_disjoint 8 (a * 2 ^ 16 + b * 2 ^ 8 + c) d hd
    ∙ omega arith

word_bytes : ℕ → List ℕ
word_bytes t = u8 (t >>> 24) ∷ u8 (t >>> 16) ∷ u8 (t >>> 8) ∷ u8 t ∷ []

bytes_of :
    (a b c d : ℕ)
    → a < 2 ^ 8
    → b < 2 ^ 8
    → c < 2 ^ 8
    → d < 2 ^ 8
    → word_bytes (a * 2 ^ 24 + b * 2 ^ 16 + c * 2 ^ 8 + d) ≡ a ∷ b ∷ c ∷ d ∷ []
unfolding word_bytes
bytes_of a b c d ha hb hc hd =
    let t : ℕ = a * 2 ^ 24 + b * 2 ^ 16 + c * 2 ^ 8 + d in
    let ea : u8 (t >>> 24) ≡ a = omega arith in
    let eb : u8 (t >>> 16) ≡ b = omega arith in
    let ec : u8 (t >>> 8) ≡ c = omega arith in
    let ed : u8 t ≡ d = omega arith in rw (ea, eb, ec, ed) refl

-- The clock that the host sets reads back, whatever it was: a SET_TIME with four bytes and then a GET_TIME
-- reply with these bytes.
pub get_time-set_time :
    (a b c d : ℕ) (s : Cuda)
    → a < 2 ^ 8
    → b < 2 ^ 8
    → c < 2 ^ 8
    → d < 2 ^ 8
    → (host_packet (1 ∷ 3 ∷ []) (host_packet (1 ∷ 9 ∷ a ∷ b ∷ c ∷ d ∷ []) s)).resp
      ≡ 1 ∷ 0 ∷ 3 ∷ a ∷ b ∷ c ∷ d ∷ []
unfolding host_packet pseudo set_time get_time reply word_bytes
get_time-set_time a b c d s ha hb hc hd =
    let t : ℕ = bit_or (bit_or (bit_or (shl32 a 24) (shl32 b 16)) (shl32 c 8)) d in
    let whole = four_bytes a b c d ha hb hc hd in
    let back : u32 (rtc_base + sub32 t rtc_base) ≡ a * 2 ^ 24 + b * 2 ^ 16 + c * 2 ^ 8 + d =
      omega (arith, whole) in
    ap (λ (r : List ℕ). 1 ∷ 0 ∷ 3 ∷ r) (ap word_bytes back ∙ bytes_of a b c d ha hb hc hd)

-- A byte that the host stores in the parameter memory is what GET_PRAM replies for its address, and for
-- every other address it replies what it did before.
pub get_pram-set_pram :
    (a other v : ℕ) (s : Cuda)
    → other ≢ a
    → ((host_packet (1 ∷ 7 ∷ a ∷ []) (host_packet (1 ∷ 0x0c ∷ a ∷ v ∷ []) s)).resp
        ≡ 1 ∷ 0 ∷ 7 ∷ v ∷ [])
      × ((host_packet (1 ∷ 7 ∷ other ∷ []) (host_packet (1 ∷ 0x0c ∷ a ∷ v ∷ []) s)).resp
          ≡ (host_packet (1 ∷ 7 ∷ other ∷ []) s).resp)
unfolding host_packet pseudo set_pram reply
get_pram-set_pram a other v s ne = (
  ap (λ (x : ℕ). 1 ∷ 0 ∷ 7 ∷ x ∷ []) (update_same s.pram a v),
  ap (λ (x : ℕ). 1 ∷ 0 ∷ 7 ∷ x ∷ []) (update_other s.pram a other v ne),
)
