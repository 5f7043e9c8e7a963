-- ===== src/Ping/Varints.antt =====
-- src/hypixel_ping.rs: numbers of variable length are read back.
use escrow.Common.{
  ℕ, zero, suc, ◌+◌, ◌*◌, ◌/◌, ◌%◌, ◌^◌, ◌<◌, ◌≡◌, refl, sym, ap, ◌∙◌, inl, inr, true, false, List,
  [], ◌∷◌, ◌++◌, arith, ltb, ◌==◌, Bool-cases, length, text_keys, side_keys, nat_eq,
}
use native.Mathlib.Nat.{pow-suc, add-mul, mul_assoc, mul_comm}
use escrow.Ping.{u32_mod, write_rounds, write_varint, frame, got, read_rounds, read_varint}

read_last :
    (num place value rounds : ℕ) (rest : List ℕ)
    → value < 128
    → value * place < u32_mod
    → read_rounds (suc rounds) num place (value ∷ rest) ≡ got (num + value * place) rest
unfolding read_rounds
read_last num place value rounds rest h k =
    let small : ltb value 128 ≡ true = ground (arith, h) in
    let low : value % 128 ≡ value = omega (arith, h) in
    let fits : value * place % u32_mod ≡ value * place = omega (arith, k) in
    rw (small, low, fits) refl

read_more :
    (num place value rounds : ℕ) (rest : List ℕ)
    → value < 128
    → value * place < u32_mod
    → read_rounds (suc rounds) num place ((value + 128) ∷ rest)
      ≡ read_rounds rounds (num + value * place) (place * 128) rest
unfolding read_rounds
read_more num place value rounds rest h k =
    let marked : ltb (value + 128) 128 ≡ false = ground arith in
    let low : (value + 128) % 128 ≡ value = omega (arith, h) in
    let fits : value * place % u32_mod ≡ value * place = omega (arith, k) in
    rw (marked, low, fits) refl

-- A value by its lowest seven bits and the rest.
split_value : (value place : ℕ) → value % 128 * place + value / 128 * (place * 128) ≡ value * place
split_value value place =
    ap (λ t. value % 128 * place + t)
      (ap (λ t. value / 128 * t) (mul_comm place 128) ∙ sym (mul_assoc (value / 128) 128 place))
    ∙ sym (add-mul (value % 128) (value / 128 * 128) place)
    ∙ ap (λ t. t * place) (omega arith)

write_last :
    (rounds value : ℕ)
    → (value / 128 == 0) ≡ true
    → write_rounds (suc rounds) value ≡ value % 128 ∷ []
unfolding write_rounds
write_last rounds value e = rw e refl

write_more :
    (rounds value : ℕ)
    → (value / 128 == 0) ≡ false
    → write_rounds (suc rounds) value ≡ (value % 128 + 128) ∷ write_rounds rounds (value / 128)
unfolding write_rounds
write_more rounds value e = rw e refl

read_rounds-write_rounds :
    (rounds num place value : ℕ) (rest : List ℕ)
    → value < 128 ^ suc rounds
    → value * place < u32_mod
    → read_rounds (suc rounds) num place (write_rounds (suc rounds) value ++ rest)
      ≡ got (num + value * place) rest
read_rounds-write_rounds zero num place value rest h k =
    let small : value < 128 = omega (arith, h, pow-suc 128 0) in
    let low : value % 128 ≡ value = omega (arith, small) in
    let alone : (value / 128 == 0) ≡ true = ground (arith, small) in
    rw (write_last 0 value alone, low) (read_last num place value 0 rest small k)
read_rounds-write_rounds (suc rounds) num place value rest h k =
    elim (Bool-cases (value / 128 == 0)) [
      | inl e ↦
          let low : value % 128 ≡ value = ground (arith, e) in
          rw (write_last (suc rounds) value e, low)
            (read_last num place value (suc rounds) rest (ground (arith, e)) k)
      | inr e ↦
          let parts = split_value value place in
          rw
            (
              write_more (suc rounds) value e,
              read_more num place (value % 128) (suc rounds)
                  (write_rounds (suc rounds) (value / 128) ++ rest) (omega arith)
                  (omega (arith, parts, k)),
            )
            (read_rounds-write_rounds rounds (num + value % 128 * place) (place * 128) (value / 128)
                rest (omega (arith, h, pow-suc 128 (suc rounds))) (omega (arith, parts, k))
              ∙ ap (λ v. got v rest) (omega (arith, parts)))
    ]

-- Numbers of 32 bits are read back, and what follows them is left.
pub read_varint-write_varint :
    (value : ℕ) (rest : List ℕ)
    → value < u32_mod
    → read_varint (write_varint [] value ++ rest) ≡ got value rest
unfolding read_varint write_varint
read_varint-write_varint value rest h =
    read_rounds-write_rounds 4 0 1 value rest (omega (arith, h)) (omega (arith, h))
    ∙ ap (λ v. got v rest) (omega arith)

-- A packet that is framed is read back with its length.
read_varint-frame :
    (payload : List ℕ)
    → length payload < u32_mod
    → read_varint (frame payload) ≡ got (length payload) payload
unfolding frame
read_varint-frame payload h =
    let fits : length payload % u32_mod ≡ length payload = omega (arith, h) in
    rw fits (read_varint-write_varint (length payload) payload h)
