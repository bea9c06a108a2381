-- ===== src/Kernel/Hex.antt =====
-- The numbers that `serial_print_hex` of kernel/core/main.c prints, read back.
use native.Mathlib.Nat.{pow-suc}
use cellkernelqwen.Prelude.{
  ℕ, zero, suc, ◌+◌, ◌-◌, ◌*◌, ◌/◌, ◌^◌, ◌<◌, ◌≡◌, refl, ap, ◌∙◌, arith, Option, none, some, List,
  [], ◌∷◌, map, length, get_or, ltb, bit_and, ◌>>>◌, if◌then◌else◌,
}
use cellkernelqwen.Prelude.Bits.{bit_and_mask}
use cellkernelqwen.Kernel.Console.{Event, say, put, call, hex, fill_hex, serial_print_hex}

-- The value of a character: 0 to 9 and A to F.
abbrev pub hex_value : ℕ → ℕ
hex_value c = if ltb c 58 then c - 48 else c - 55

-- A number from its digits, the highest first.
abbrev pub read_digits : ℕ → List ℕ → ℕ
read_digits acc [] = acc
read_digits acc (c ∷ cs) = read_digits (acc * 16 + hex_value c) cs

-- What is read from what was printed.
abbrev pub read_events : ℕ → List Event → Option ℕ
read_events acc [] = some acc
read_events acc (put c ∷ es) = read_events (acc * 16 + hex_value c) es
read_events acc (say t ∷ es) = none
read_events acc (call s ∷ es) = none

hex_value_of : (n : ℕ) → n < 16 → hex_value (get_or hex n 0) ≡ n
hex_value_of n h = ground arith

read_events-map : (acc : ℕ) (cs : List ℕ) → read_events acc (map put cs) ≡ some (read_digits acc cs)
read_events-map acc [] = refl
read_events-map acc (c ∷ cs) = read_events-map (acc * 16 + hex_value c) cs

fill_hex_lem :
    (rounds val acc : ℕ) (buf : List ℕ)
    → val < 2 ^ (4 * rounds)
    → read_digits acc (fill_hex rounds val buf) ≡ read_digits (acc * 2 ^ (4 * rounds) + val) buf
unfolding fill_hex
fill_hex_lem zero val acc buf h =
    ap (λ (t : ℕ). read_digits t buf) {x = acc} {y = acc * 2 ^ (4 * 0) + val} (omega (arith, h))
fill_hex_lem (suc rounds) val acc buf h =
    let power : 2 ^ (4 * suc rounds) ≡ 16 * 2 ^ (4 * rounds) = sixteen rounds in
    let digit = bit_and_mask 4 val in
    fill_hex_lem rounds (val >>> 4) acc (get_or hex (bit_and val 0xF) 0 ∷ buf)
      (omega (arith, h, power))
    ∙ ap (λ (t : ℕ). read_digits t buf)
        {x = (acc * 2 ^ (4 * rounds) + val / 16) * 16 + hex_value (get_or hex (bit_and val 0xF) 0)}
        {y = acc * 2 ^ (4 * suc rounds) + val}
        (omega (
          arith,
          hex_value_of (bit_and val 0xF) (omega (arith, digit)),
          digit,
          ap (λ (t : ℕ). acc * t) power,
        ))
  where
    sixteen : (n : ℕ) → 2 ^ (4 * suc n) ≡ 16 * 2 ^ (4 * n)
    sixteen n =
        ap (λ (t : ℕ). 2 ^ t) {x = 4 * suc n} {y = suc (suc (suc (suc (4 * n))))} (omega arith)
        ∙ omega (
          arith,
          pow-suc 2 (suc (suc (suc (4 * n)))),
          pow-suc 2 (suc (suc (4 * n))),
          pow-suc 2 (suc (4 * n)),
          pow-suc 2 (4 * n),
        )

length-fill_hex :
    (rounds val : ℕ) (buf : List ℕ) → length (fill_hex rounds val buf) ≡ rounds + length buf
unfolding fill_hex
length-fill_hex zero val buf = omega arith
length-fill_hex (suc rounds) val buf =
    length-fill_hex rounds (val >>> 4) (get_or hex (bit_and val 0xF) 0 ∷ buf) ∙ omega arith

length-map-put : (cs : List ℕ) → length (map put cs) ≡ length cs
length-map-put [] = refl
length-map-put (c ∷ cs) = ap suc (length-map-put cs)

-- For a value below 2^64 serial_print_hex prints 16 characters, which read as hexadecimal digits give
-- the value back.
pub read_events-serial_print_hex :
    (val : ℕ)
    → val < 2 ^ 64
    → (length (serial_print_hex val) ≡ 16) × (read_events 0 (serial_print_hex val) ≡ some val)
unfolding serial_print_hex
read_events-serial_print_hex val h = (
  length-map-put (fill_hex 16 val []) ∙ length-fill_hex 16 val [] ∙ omega arith,
  read_events-map 0 (fill_hex 16 val []) ∙ ap some (fill_hex_lem 16 val 0 [] h ∙ omega arith),
)
