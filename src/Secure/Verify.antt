-- ===== src/Secure/Verify.antt =====
-- `verify_kernel_signature` and `ed25519_verify` of boot/secure/verify_signature.c. An image is a
-- list of bytes, and `kernel_size` its length; a NULL buffer is `none`.
use cellkernelqwen.Prelude.{
  ℕ, zero, suc, ◌+◌, ◌-◌, Bool, true, false, not, ◌&&◌, Option, none, some, List, [], ◌∷◌, ltb,
  ◌==◌, if◌then◌else◌, length, get_or, take, drop, replicate,
}
use cellkernelqwen.Secure.Sha512.{Context, compute_hash}

abbrev pub verify_success : ℕ
verify_success = 0

abbrev pub verify_failure : ℕ
verify_failure = 1

abbrev pub verify_no_sig : ℕ
verify_no_sig = 2

abbrev pub signature_size : ℕ
signature_size = 64

abbrev pub public_key_size : ℕ
public_key_size = 32

-- "CELLSIG\0"
abbrev pub signature_magic : List ℕ
signature_magic = b'C' ∷ b'E' ∷ b'L' ∷ b'L' ∷ b'S' ∷ b'I' ∷ b'G' ∷ 0 ∷ []

abbrev pub kernel_public_key : List ℕ
kernel_public_key = replicate public_key_size 0

-- The loop over the key, which ends at the first byte that is not zero: `n` bytes are left.
unfoldable pub key_is_zero : ℕ → ℕ → List ℕ → Bool
key_is_zero zero i key = true
key_is_zero (suc n) i key =
    let rest = key_is_zero n (i + 1) key in if not (get_or key i 0 == 0) then false else rest

-- The stand-in for Ed25519.
unfoldable pub ed25519_verify : List ℕ → List ℕ → List ℕ → ℕ
unfolding key_is_zero
ed25519_verify sig msg key = if key_is_zero public_key_size 0 key then 0 else 1

-- The eight comparisons with the magic, at the byte `i`.
unfoldable pub has_magic : List ℕ → ℕ → Bool
has_magic buf i =
    (get_or buf i 0 == b'C')
    && (get_or buf (i + 1) 0 == b'E')
    && (get_or buf (i + 2) 0 == b'L')
    && (get_or buf (i + 3) 0 == b'L')
    && (get_or buf (i + 4) 0 == b'S')
    && (get_or buf (i + 5) 0 == b'I')
    && (get_or buf (i + 6) 0 == b'G')
    && (get_or buf (i + 7) 0 == 0)

-- `ctx` is the uninitialised context of `compute_hash`.
module _ (verify : List ℕ → List ℕ → List ℕ → ℕ) (key : List ℕ) (ctx : Context) where
  unfoldable pub check_signature : List ℕ → ℕ
  check_signature buf =
      let data_size = length buf - signature_size - 8 in
      let signature = take signature_size (drop data_size buf) in
      let result = verify signature (compute_hash ctx (take data_size buf)) key in
      if result == 0 then verify_success else verify_failure

  unfoldable pub verify_with : Option (List ℕ) → ℕ
  verify_with none = verify_success
  verify_with (some buf) =
      if length buf == 0
      then verify_success
      else if ltb (length buf) (signature_size + 8)
      then verify_no_sig
      else if has_magic buf (length buf - 8)
      then check_signature buf
      else verify_no_sig

unfoldable pub verify_kernel_signature : Context → Option (List ℕ) → ℕ
verify_kernel_signature ctx buf = verify_with ed25519_verify kernel_public_key ctx buf
