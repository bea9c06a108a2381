-- ===== src/Frames/Bitmap.antt =====
-- The bitmap helpers of kernel/memory/frame_alloc.c, which nothing there calls.
use cellkernelqwen.Prelude.{
  ℕ, zero, suc, ◌+◌, ◌-◌, ◌*◌, ◌/◌, ◌%◌, ◌^◌, ◌≡◌, refl, List, [], ◌∷◌, get_or, set, bit_and,
  bit_or, ◌<<<◌, ◌>>>◌, ◌==◌, if◌then◌else◌, Option, none, some,
}
use cellkernelqwen.Prelude.Status.{ℤ, pos, negsuc}

unfoldable bitmap_set : List ℕ → ℕ → List ℕ
bitmap_set words bit = set words (bit / 64) (bit_or (get_or words (bit / 64) 0) (1 <<< (bit % 64)))

unfoldable bitmap_clear : List ℕ → ℕ → List ℕ
bitmap_clear words bit =
    set words (bit / 64) (bit_and (get_or words (bit / 64) 0) (2 ^ 64 - 1 - (1 <<< (bit % 64))))

unfoldable bitmap_test : List ℕ → ℕ → ℕ
bitmap_test words bit = bit_and (get_or words (bit / 64) 0 >>> (bit % 64)) 1

-- The first of the bits `64 - left` to 63 of a word that is 0.
unfoldable zero_bit : ℕ → ℕ → Option ℕ
zero_bit zero word = none
zero_bit (suc left) word =
    let rest = zero_bit left word in
    if bit_and (word >>> (63 - left)) 1 == 0 then some (63 - left) else rest

-- For maps below 2^25 words, whose bit numbers fit an `int`; `i` is the number of the first word.
unfoldable find_from : ℕ → List ℕ → ℤ
find_from i [] = negsuc 0
find_from i (word ∷ words) =
    let rest = find_from (suc i) words in
    if word == 2 ^ 64 - 1
    then rest
    else elim (zero_bit 64 word) [ none ↦ rest | some j ↦ pos (i * 64 + j) ]

-- The argument `n` is not used.
unfoldable bitmap_find_zero : List ℕ → ℤ
bitmap_find_zero words = find_from 0 words

finds_after_set : bitmap_find_zero (bitmap_set ((2 ^ 64 - 1) ∷ 5 ∷ []) 65) ≡ pos 67
unfolding bitmap_find_zero find_from zero_bit bitmap_set
finds_after_set = refl

cleared_bit : bitmap_test (bitmap_clear ((2 ^ 64 - 1) ∷ []) 63) 63 ≡ 0
unfolding bitmap_test bitmap_clear
cleared_bit = refl
