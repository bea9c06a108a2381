-- ===== src/Secure/Check.antt =====
-- What `verify_kernel_signature` accepts.
use cellkernelqwen.Prelude.{
  ℕ, zero, suc, ◌+◌, ◌-◌, ◌≤◌, ◌<◌, ◌≡◌, ◌↔◌, refl, sym, ap, ◌∙◌, true, some, List, [], ◌∷◌, ◌++◌,
  arith, length, length-append, length-take, length-drop, get_or, take, drop, take-append,
  drop-append, drop-drop, take-append-drop, le→ltb, ne→==,
}
use cellkernelqwen.Secure.Sha512.{Context, compute_hash}
use cellkernelqwen.Secure.Verify.{
  verify_success, signature_size, signature_magic, has_magic, check_signature, verify_with,
  verify_kernel_signature, ed25519_verify, kernel_public_key,
}

get_or-drop : (buf : List ℕ) (i j d : ℕ) → get_or (drop i buf) j d ≡ get_or buf (i + j) d
get_or-drop buf zero j d = ap (λ k. get_or buf k d) (omega arith)
get_or-drop [] (suc i) j d = refl
get_or-drop (x ∷ xs) (suc i) j d =
    get_or-drop xs i j d ∙ ap (λ k. get_or (x ∷ xs) k d) {x = suc (i + j)} (omega arith)

has_magic-drop : (buf : List ℕ) (i : ℕ) → has_magic (drop i buf) 0 ≡ has_magic buf i
unfolding has_magic
has_magic-drop buf i =
    simp
      (
        get_or-drop buf i 1 0,
        get_or-drop buf i 2 0,
        get_or-drop buf i 3 0,
        get_or-drop buf i 4 0,
        get_or-drop buf i 5 0,
        get_or-drop buf i 6 0,
        get_or-drop buf i 7 0,
      )
      (rw (get_or-drop buf i 0 0 ∙ ap (λ k. get_or buf k 0) {y = i} (omega arith)))

magic_of_eight : (l : List ℕ) → length l ≡ 8 → has_magic l 0 ≡ true → l ≡ signature_magic
unfolding has_magic
magic_of_eight (a ∷ b ∷ c ∷ d ∷ e ∷ f ∷ g ∷ h ∷ []) len hit = ground arith
magic_of_eight _ len hit = absurd (omega arith)

-- The signed images: data, 64 bytes of signature, the magic.
module _ (verify : List ℕ → List ℕ → List ℕ → ℕ) (key : List ℕ) (ctx : Context) where
  pub record IsSigned (buf : List ℕ) : Type 0 where
    pub body : List ℕ
    pub signature : List ℕ
    pub signature_len : length signature ≡ signature_size
    pub layout : buf ≡ body ++ (signature ++ signature_magic)
    pub verified : verify signature (compute_hash ctx body) key ≡ 0

  -- The parts that the code cuts out of an image with the magic.
  cut_lem :
      (buf : List ℕ)
      → signature_size + 8 ≤ length buf
      → has_magic buf (length buf - 8) ≡ true
      → let n = length buf - signature_size - 8 in
        buf ≡ take n buf ++ (take signature_size (drop n buf) ++ signature_magic)
  cut_lem buf long hit =
      let n = length buf - signature_size - 8 in
      let rest = drop n buf in
      let end : drop signature_size rest ≡ signature_magic =
        drop-drop n signature_size buf
        ∙ ap (λ k. drop k buf) (omega arith)
        ∙ magic_of_eight (drop (length buf - 8) buf)
            (omega (arith, length-drop (length buf - 8) buf))
            (has_magic-drop buf (length buf - 8) ∙ hit) in
      sym (take-append-drop n buf)
      ∙ ap (λ r. take n buf ++ r)
          (sym (take-append-drop signature_size rest) ∙ ap (λ r. take signature_size rest ++ r) end)

  verified_of_success :
      (buf : List ℕ)
      → check_signature verify key ctx buf ≡ verify_success
      → let n = length buf - signature_size - 8 in
        verify (take signature_size (drop n buf)) (compute_hash ctx (take n buf)) key ≡ 0
  unfolding check_signature
  verified_of_success buf e = ground arith

  IsSigned-of_success :
      (buf : List ℕ)
      → 0 < length buf
      → verify_with verify key ctx (some buf) ≡ verify_success
      → IsSigned buf
  unfolding verify_with
  IsSigned-of_success buf pos e =
      let n = length buf - signature_size - 8 in
      let tests : (signature_size + 8 ≤ length buf)
          × (has_magic buf (length buf - 8) ≡ true)
          × (check_signature verify key ctx buf ≡ verify_success) =
        ground arith in
      record {
        body = take n buf;
        signature = take signature_size (drop n buf);
        signature_len = omega (arith, length-take signature_size (drop n buf), length-drop n buf);
        layout = cut_lem buf tests.0 tests.1;
        verified = verified_of_success buf tests.2;
      }

  module _ (body signature : List ℕ) (len : length signature ≡ signature_size) where
    abbrev image : List ℕ
    image = body ++ (signature ++ signature_magic)

    length-image : length image ≡ length body + 72
    length-image = omega (
      arith,
      length-append body (signature ++ signature_magic),
      length-append signature signature_magic,
    )

    cut_body :
        (n : ℕ)
        → n ≡ length body
        → (take n image ≡ body) × (drop n image ≡ signature ++ signature_magic)
    cut_body n e = rw e (take-append body _, drop-append body _)

    cut_signature : take signature_size (signature ++ signature_magic) ≡ signature
    cut_signature = rw (← len) (take-append signature signature_magic)

    has_magic-image : has_magic image (length image - 8) ≡ true
    unfolding has_magic
    has_magic-image =
        let at : length image - 8 ≡ length body + length signature = omega (arith, length-image) in
        sym (has_magic-drop image (length image - 8))
        ∙ ap (λ l. has_magic l 0)
            (ap (λ k. drop k image) at
              ∙ sym (drop-drop (length body) (length signature) image)
              ∙ ap (drop (length signature)) (drop-append body _)
              ∙ drop-append signature signature_magic)

    check-image :
        verify signature (compute_hash ctx body) key ≡ 0
        → check_signature verify key ctx image ≡ verify_success
    unfolding check_signature
    check-image good =
        let (front, back) =
          cut_body (length image - signature_size - 8) (omega (arith, length-image)) in
        rw (front, back, cut_signature, good)

    verify_with-image :
        verify signature (compute_hash ctx body) key ≡ 0
        → verify_with verify key ctx (some image) ≡ verify_success
    unfolding verify_with
    verify_with-image good =
        rw
          (
            ne→== (length image) 0 (omega (arith, length-image)),
            le→ltb (length image) 72 (omega (arith, length-image)),
            has_magic-image,
          )
          (check-image good)

  -- A non-empty image is accepted exactly when it is a body, a signature of 64 bytes and the magic,
  -- and the verifier accepts the signature for the hash of the body.
  pub accepts_iff :
      (buf : List ℕ)
      → 0 < length buf
      → (verify_with verify key ctx (some buf) ≡ verify_success) ↔ IsSigned buf
  accepts_iff buf pos = (
    IsSigned-of_success buf pos,
    λ s. rw s.layout (verify_with-image s.body s.signature s.signature_len s.verified),
  )

-- With the key of the source, all zeros, every signature is accepted: an image is accepted whenever
-- it ends in 64 bytes and the magic, whatever these bytes are.
pub accepts_any :
    (ctx : Context) (body signature : List ℕ)
    → length signature ≡ signature_size
    → verify_kernel_signature ctx (some (body ++ (signature ++ signature_magic))) ≡ verify_success
unfolding verify_kernel_signature ed25519_verify
accepts_any ctx body signature len =
    verify_with-image ed25519_verify kernel_public_key ctx body signature len refl
