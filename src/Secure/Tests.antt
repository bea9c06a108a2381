-- ===== src/Secure/Tests.antt =====
-- Runs of boot/secure/verify_signature.c, and its theorems at concrete images.
use cellkernelqwen.Prelude.{
  ℕ, ◌+◌, ◌-◌, ◌%◌, ◌≡◌, ◌≢◌, ◌↔◌, refl, none, some, List, [], ◌∷◌, ◌++◌, arith, length, replicate,
}
use cellkernelqwen.Secure.Sha512.{
  trailer, finish, Context, sha512_init, transform, hash_bytes, sha512_update, compute_hash,
  word_bytes,
}
use cellkernelqwen.Secure.Stream.{IsValid, feed_all, view}
use cellkernelqwen.Secure.Update.{update_refines, update-IsValid}
use cellkernelqwen.Secure.Hash.{start, tail_of, compute_hash_lem}
use cellkernelqwen.Secure.Standard.{standard_tail, finish-ne-standard_tail}
use cellkernelqwen.Secure.Verify.{
  verify_success, verify_failure, verify_no_sig, signature_magic, has_magic, verify_with,
  verify_kernel_signature, ed25519_verify, check_signature,
}
use cellkernelqwen.Secure.Check.{IsSigned, accepts_iff, accepts_any}

abbrev abc : List ℕ
abc = 97 ∷ 98 ∷ 99 ∷ []

-- The compression function on the block of FIPS 180-4 for "abc" gives the published digest.
transform-abc :
    hash_bytes (transform start.state (abc ++ standard_tail abc))
    ≡ 0xdd ∷ 0xaf ∷ 0x35 ∷ 0xa1 ∷ 0x93 ∷ 0x61 ∷ 0x7a ∷ 0xba ∷ 0xcc ∷ 0x41 ∷ 0x73 ∷ 0x49 ∷ 0xae
      ∷ 0x20 ∷ 0x41 ∷ 0x31 ∷ 0x12 ∷ 0xe6 ∷ 0xfa ∷ 0x4e ∷ 0x89 ∷ 0xa9 ∷ 0x7e ∷ 0xa2 ∷ 0x0a ∷ 0x9e
      ∷ 0xee ∷ 0xe6 ∷ 0x4b ∷ 0x55 ∷ 0xd3 ∷ 0x9a ∷ 0x21 ∷ 0x92 ∷ 0x99 ∷ 0x2a ∷ 0x27 ∷ 0x4f ∷ 0xc1
      ∷ 0xa8 ∷ 0x36 ∷ 0xba ∷ 0x3c ∷ 0x23 ∷ 0xa3 ∷ 0xfe ∷ 0xeb ∷ 0xbd ∷ 0x45 ∷ 0x4d ∷ 0x44 ∷ 0x23
      ∷ 0x64 ∷ 0x3c ∷ 0xe8 ∷ 0x0e ∷ 0x2a ∷ 0x9a ∷ 0xc9 ∷ 0x4f ∷ 0xa5 ∷ 0x4c ∷ 0xa4 ∷ 0x9f ∷ []
unfolding hash_bytes transform sha512_init word_bytes
transform-abc = refl

abbrev blank : Context
blank = record { state = start.state; count = 0; buffer = replicate 128 0 }

blank-IsValid : IsValid blank
blank-IsValid = record { buffer_len = refl; whole_bytes = refl; small = omega arith }

abbrev long_input : List ℕ
long_input = replicate 300 7

update_refines_example : view (sha512_update blank long_input) ≡ feed_all (view blank) long_input
update_refines_example = update_refines blank blank-IsValid long_input

update-IsValid_example : IsValid (sha512_update blank long_input)
update-IsValid_example = update-IsValid blank blank-IsValid long_input

compute_hash_lem_example :
    (compute_hash blank abc ≡ hash_bytes (feed_all start (abc ++ tail_of abc)).state)
    × (length (abc ++ tail_of abc) % 128 ≡ 0)
compute_hash_lem_example = compute_hash_lem blank refl abc

finish-ne-standard_tail_example :
    let before = sha512_update (sha512_init blank) abc in
    let (pad, len_bytes) = trailer before in
    (view (finish before) ≡ feed_all start (abc ++ (pad ++ len_bytes)))
    × (pad ++ len_bytes ≢ standard_tail abc)
finish-ne-standard_tail_example = finish-ne-standard_tail blank abc refl (omega arith)

-- A verifier that compares the first byte of the signature with that of the key.
abbrev first_byte : List ℕ → List ℕ → List ℕ → ℕ
first_byte (x ∷ sig) msg (y ∷ key) = (x + 256 - y) % 256
first_byte _ msg key = 1

abbrev image : List ℕ
image = abc ++ (replicate 64 5 ++ signature_magic)

accepts_iff_example :
    (verify_with first_byte (5 ∷ []) blank (some image) ≡ verify_success)
    ↔ IsSigned first_byte (5 ∷ []) blank image
accepts_iff_example = accepts_iff first_byte (5 ∷ []) blank image (omega arith)

accepts_any_example : verify_kernel_signature blank (some image) ≡ verify_success
accepts_any_example = accepts_any blank abc (replicate 64 5) refl

small_images :
    (verify_kernel_signature blank none ≡ verify_success)
    × (verify_kernel_signature blank (some []) ≡ verify_success)
    × (verify_kernel_signature blank (some abc) ≡ verify_no_sig)
    × (verify_kernel_signature blank (some (replicate 72 5)) ≡ verify_no_sig)
    × (verify_with ed25519_verify (1 ∷ []) blank (some image) ≡ verify_failure)
unfolding verify_kernel_signature verify_with has_magic check_signature ed25519_verify
small_images = (refl, refl, refl, refl, refl)
