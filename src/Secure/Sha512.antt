-- ===== src/Secure/Sha512.antt =====
-- SHA-512 as boot/secure/verify_signature.c implements it. Bytes and words are numbers; a buffer is
-- a list of bytes, and `len` is its length.
use cellkernelqwen.Prelude.{
  ℕ, zero, suc, ◌+◌, ◌-◌, ◌*◌, ◌/◌, ◌%◌, ◌^◌, bit_and, bit_or, bit_xor, List, [], ◌∷◌, ◌++◌, ltb,
  leb, if◌then◌else◌, length, get_or, set, take, drop, replicate, u8, add64, ◌<<<◌, ◌>>>◌,
}
use cellkernelqwen.Secure.Constants.{round_constants}

-- The eight words `state[8]`.
pub record Hash : Type 0 where
  pub a : ℕ
  pub b : ℕ
  pub c : ℕ
  pub d : ℕ
  pub e : ℕ
  pub f : ℕ
  pub g : ℕ
  pub h : ℕ

-- `sha512_context`
pub record Context : Type 0 where
  pub state : Hash
  pub count : ℕ
  pub buffer : List ℕ

rot_right64 : ℕ → ℕ → ℕ
rot_right64 x n = bit_or (x >>> n) (x <<< (64 - n))

-- `~x` on 64 bits.
not64 : ℕ → ℕ
not64 x = 2 ^ 64 - 1 - x

ch : ℕ → ℕ → ℕ → ℕ
unfolding not64
ch x y z = bit_xor (bit_and x y) (bit_and (not64 x) z)

maj : ℕ → ℕ → ℕ → ℕ
maj x y z = bit_xor (bit_xor (bit_and x y) (bit_and x z)) (bit_and y z)

ep0 : ℕ → ℕ
unfolding rot_right64
ep0 x = bit_xor (bit_xor (rot_right64 x 28) (rot_right64 x 34)) (rot_right64 x 39)

ep1 : ℕ → ℕ
unfolding rot_right64
ep1 x = bit_xor (bit_xor (rot_right64 x 14) (rot_right64 x 18)) (rot_right64 x 41)

sig0 : ℕ → ℕ
unfolding rot_right64
sig0 x = bit_xor (bit_xor (rot_right64 x 1) (rot_right64 x 8)) (x >>> 7)

sig1 : ℕ → ℕ
unfolding rot_right64
sig1 x = bit_xor (bit_xor (rot_right64 x 19) (rot_right64 x 61)) (x >>> 6)

unfoldable pub sha512_init : Context → Context
sha512_init ctx = record ctx {
  state = record {
    a = 0x6a09e667f3bcc908;
    b = 0xbb67ae8584caa73b;
    c = 0x3c6ef372fe94f82b;
    d = 0xa54ff53a5f1d36f1;
    e = 0x510e527fade682d1;
    f = 0x9b05688c2b3e6c1f;
    g = 0x1f83d9abfb41bd6b;
    h = 0x5be0cd19137e2179;
  };
  count = 0;
}

-- Eight bytes from index `i`, the first highest.
word_at : List ℕ → ℕ → ℕ
word_at bytes i =
    let byte = λ (j : ℕ) (k : ℕ). get_or bytes (i * 8 + j) 0 <<< k in
    bit_or
      (bit_or
        (bit_or
          (bit_or (bit_or (bit_or (bit_or (byte 0 56) (byte 1 48)) (byte 2 40)) (byte 3 32))
            (byte 4 24))
          (byte 5 16))
        (byte 6 8))
      (byte 7 0)

-- The first loop of the schedule, `left` words to come.
first_words : ℕ → ℕ → List ℕ → List ℕ
unfolding word_at
first_words zero i bytes = []
first_words (suc left) i bytes = word_at bytes i ∷ first_words left (i + 1) bytes

-- The second loop: `w[i]` from the words before it.
more_words : ℕ → ℕ → List ℕ → List ℕ
unfolding sig0 sig1
more_words zero i w = w
more_words (suc left) i w =
    let w_at = λ (j : ℕ). get_or w j 0 in
    let next =
      add64 (add64 (add64 (sig1 (w_at (i - 2))) (w_at (i - 7))) (sig0 (w_at (i - 15))))
        (w_at (i - 16)) in
    more_words left (i + 1) (w ++ (next ∷ []))

-- One round of the main loop.
round : ℕ → ℕ → Hash → Hash
unfolding ep0 ep1 ch maj
round k w s =
    let t1 = add64 (add64 (add64 (add64 s.h (ep1 s.e)) (ch s.e s.f s.g)) k) w in
    let t2 = add64 (ep0 s.a) (maj s.a s.b s.c) in
    record {
      a = add64 t1 t2;
      b = s.a;
      c = s.b;
      d = s.c;
      e = add64 s.d t1;
      f = s.e;
      g = s.f;
      h = s.g;
    }

rounds : ℕ → ℕ → List ℕ → Hash → Hash
unfolding round
rounds zero i w s = s
rounds (suc left) i w s =
    rounds left (i + 1) w (round (get_or round_constants i 0) (get_or w i 0) s)

add_hash : Hash → Hash → Hash
add_hash s t = record {
  a = add64 s.a t.a;
  b = add64 s.b t.b;
  c = add64 s.c t.c;
  d = add64 s.d t.d;
  e = add64 s.e t.e;
  f = add64 s.f t.f;
  g = add64 s.g t.g;
  h = add64 s.h t.h;
}

-- `sha512_transform` on the state alone.
unfoldable pub transform : Hash → List ℕ → Hash
unfolding first_words more_words rounds add_hash
transform s bytes = add_hash s (rounds 80 0 (more_words 64 16 (first_words 16 0 bytes)) s)

-- The copies into the buffer from `index` on.
unfoldable pub store_bytes : List ℕ → ℕ → List ℕ → List ℕ
store_bytes buffer index [] = buffer
store_bytes buffer index (x ∷ xs) = store_bytes (set buffer index x) (index + 1) xs

-- The loop over whole blocks of the input, `i + 128 <= len`; the rest comes back. Each round takes
-- 128 bytes, so the length of the input is fuel enough.
unfoldable pub absorb_blocks : ℕ → Hash → List ℕ → Hash × List ℕ
absorb_blocks zero s bytes = (s, bytes)
absorb_blocks (suc fuel) s bytes =
    let rest = absorb_blocks fuel (transform s (take 128 bytes)) (drop 128 bytes) in
    if leb 128 (length bytes) then rest else (s, bytes)

abbrev pub index_of : Context → ℕ
index_of ctx = ctx.count / 8 % 128

-- The input reaches the end of the block that the buffer holds.
unfoldable pub update_full : Context → ℕ → List ℕ → Context
update_full ctx part bytes =
    let filled = store_bytes ctx.buffer (128 - part) (take part bytes) in
    let (s, rest) = absorb_blocks (length bytes) (transform ctx.state filled) (drop part bytes) in
    record ctx { state = s; buffer = store_bytes filled 0 rest }

unfoldable pub sha512_update : Context → List ℕ → Context
sha512_update ctx bytes =
    let counted : Context = record ctx { count = add64 ctx.count (length bytes * 8) } in
    let part = 128 - index_of ctx in
    if leb part (length bytes)
    then update_full counted part bytes
    else record counted { buffer = store_bytes ctx.buffer (index_of ctx) bytes }

-- The bytes of a word, the highest first.
unfoldable pub word_bytes : ℕ → List ℕ
word_bytes x =
    u8 (x >>> 56)
    ∷ u8 (x >>> 48)
    ∷ u8 (x >>> 40)
    ∷ u8 (x >>> 32)
    ∷ u8 (x >>> 24)
    ∷ u8 (x >>> 16)
    ∷ u8 (x >>> 8)
    ∷ u8 x
    ∷ []

unfoldable pub hash_bytes : Hash → List ℕ
hash_bytes s =
    word_bytes s.a
    ++ word_bytes s.b
    ++ word_bytes s.c
    ++ word_bytes s.d
    ++ word_bytes s.e
    ++ word_bytes s.f
    ++ word_bytes s.g
    ++ word_bytes s.h

abbrev pub padding : ℕ → List ℕ
padding len = take len (0x80 ∷ replicate 127 0)

abbrev pub pad_len : ℕ → ℕ
pad_len index = if ltb index 112 then 112 - index else 240 - index

-- What is appended: the padding, then `len_bytes`, written once the padding has been counted.
unfoldable pub trailer : Context → List ℕ × List ℕ
trailer ctx =
    let pad = padding (pad_len (index_of ctx)) in
    (pad, word_bytes (sha512_update ctx pad).count ++ replicate 8 0)

-- The context after the padding and the length.
unfoldable pub finish : Context → Context
finish ctx = let (pad, len_bytes) = trailer ctx in sha512_update (sha512_update ctx pad) len_bytes

unfoldable pub sha512_final : Context → List ℕ
sha512_final ctx = hash_bytes (finish ctx).state

-- `ctx` is the uninitialised local variable.
unfoldable pub compute_hash : Context → List ℕ → List ℕ
compute_hash ctx bytes = sha512_final (sha512_update (sha512_init ctx) bytes)
