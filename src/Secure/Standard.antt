-- ===== src/Secure/Standard.antt =====
-- The padding of FIPS 180-4 beside that of sha512_final in boot/secure/verify_signature.c.
use cellkernelqwen.Prelude.{
  ℕ, zero, suc, ◌-◌, ◌*◌, ◌/◌, ◌%◌, ◌^◌, ◌<◌, ◌≡◌, ◌≢◌, sym, ap, ◌∙◌, List, [], ◌∷◌, ◌++◌, arith,
  length, drop, drop-append, get_or, replicate, length-replicate,
}
use cellkernelqwen.Secure.Sha512.{
  Context, padding, pad_len, word_bytes, sha512_init, sha512_update, trailer, finish,
}
use cellkernelqwen.Secure.Stream.{feed_all, view}
use cellkernelqwen.Secure.Hash.{
  start, counted_bits, tail_of, pad_len_bounds, length-padding, trailer-tail_of, view-finish,
}

-- A number in some bytes, the highest first.
abbrev pub big_endian : ℕ → ℕ → List ℕ
big_endian zero x = []
big_endian (suc n) x = x / 256 ^ n % 256 ∷ big_endian n x

-- Zeros until 16 bytes are left in a block.
abbrev zeros_for : ℕ → ℕ
zeros_for len = (239 - len % 128) % 128

-- The padding of FIPS 180-4 for a message of whole bytes: a one bit, zeros, and the length of the
-- message in bits as 128 bits.
abbrev pub standard_tail : List ℕ → List ℕ
standard_tail bytes =
    0x80 ∷ (replicate (zeros_for (length bytes)) 0 ++ big_endian 16 (length bytes * 8))

high_bytes :
    (x y : ℕ) (rest : List ℕ)
    → x < 2 ^ 64
    → y < 2 ^ 63
    → word_bytes x ++ rest ≡ big_endian 16 y
    → x ≡ 0
unfolding word_bytes
high_bytes x y rest small low e =
    let byte = λ (i : ℕ). ap (λ (l : List ℕ). get_or l i 1) e in
    omega (arith, byte 0, byte 1, byte 2, byte 3, byte 4, byte 5, byte 6, byte 7)

zeros_for-pad_len : (len : ℕ) → suc (zeros_for len) ≡ pad_len (len % 128)
zeros_for-pad_len len = ground arith

after_padding : (n : ℕ) (rest : List ℕ) → n < 129 → drop n (padding n ++ rest) ≡ rest
after_padding n rest h =
    ap (λ k. drop k (padding n ++ rest)) (sym (length-padding n (omega (arith, h))))
    ∙ drop-append (padding n) rest

after_zeros : (n : ℕ) (rest : List ℕ) → drop n (replicate n 0 ++ rest) ≡ rest
after_zeros n rest =
    ap (λ k. drop k (replicate n 0 ++ rest)) (sym (length-replicate {A = ℕ} n 0))
    ∙ drop-append (replicate n 0) rest

tail_of-ne-standard_tail :
    (bytes : List ℕ) → length bytes < 2 ^ 60 → tail_of bytes ≢ standard_tail bytes
tail_of-ne-standard_tail bytes small e =
    let n = pad_len (length bytes % 128) in
    let z = zeros_for (length bytes) in
    let bounds = pad_len_bounds (length bytes % 128) (omega arith) in
    let after =
      after_padding n (word_bytes (counted_bits bytes) ++ replicate 8 0) (omega (arith, bounds)) in
    let cut =
      ap (λ (k : ℕ). drop k (standard_tail bytes)) (sym (zeros_for-pad_len (length bytes)))
      ∙ after_zeros z (big_endian 16 (length bytes * 8)) in
    let none =
      high_bytes (counted_bits bytes) (length bytes * 8) (replicate 8 0) (omega arith)
        (omega (arith, small)) (sym after ∙ ap (drop n) e ∙ cut) in
    absurd (omega (arith, none, bounds, small))

-- For every message below 2^60 bytes, hashed from any context whose buffer has 128 bytes,
-- sha512_final compresses, byte by byte, the message and its trailer, and this trailer is not the
-- padding that FIPS 180-4 lays down for the message.
pub finish-ne-standard_tail :
    (ctx : Context) (bytes : List ℕ)
    → length ctx.buffer ≡ 128
    → length bytes < 2 ^ 60
    → let before = sha512_update (sha512_init ctx) bytes in
      let (pad, len_bytes) = trailer before in
      (view (finish before) ≡ feed_all start (bytes ++ (pad ++ len_bytes)))
      × (pad ++ len_bytes ≢ standard_tail bytes)
finish-ne-standard_tail ctx bytes len small =
    let same = trailer-tail_of ctx len bytes in
    (
      view-finish ctx len bytes ∙ ap (λ (t : List ℕ). feed_all start (bytes ++ t)) (sym same),
      λ e. tail_of-ne-standard_tail bytes small (sym same ∙ e),
    )
