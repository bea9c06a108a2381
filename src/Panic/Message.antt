-- ===== src/Panic/Message.antt =====
-- The message in the crash dump of kernel/core/panic.c.
use cellkernelqwen.Prelude.{
  ℕ, zero, suc, ◌≡◌, refl, ap, ◌∙◌, Bool, arith, Option, none, some, List, [], ◌∷◌, ◌++◌, take,
  replicate, length, length-take, length-append, length-replicate, get_or, ltb, if◌then◌else◌,
}
use cellkernelqwen.Panic.Dump.{copy_message}

-- Byte number `i` of a message, with zeros after it.
abbrev pub byte_of : Option (List ℕ) → ℕ → ℕ
byte_of none i = 0
byte_of (some msg) i = get_or msg i 0

ltb-suc : (i n : ℕ) → ltb i n ≡ ltb (suc i) (suc n)
ltb-suc i n = ground arith

get_or-take :
    (n i : ℕ) (xs : List ℕ) → get_or (take n xs) i 0 ≡ (if ltb i n then get_or xs i 0 else 0)
get_or-take zero i xs = ground arith
get_or-take (suc n) i [] = ground arith
get_or-take (suc n) zero (x ∷ xs) = ground arith
get_or-take (suc n) (suc i) (x ∷ xs) =
    get_or-take n i xs ∙ ap (λ (b : Bool). if b then get_or xs i 0 else 0) (ltb-suc i n)

get_or-zeros : (xs : List ℕ) (n i : ℕ) → get_or (xs ++ replicate n 0) i 0 ≡ get_or xs i 0
get_or-zeros [] zero i = refl
get_or-zeros [] (suc n) zero = refl
get_or-zeros [] (suc n) (suc i) = get_or-zeros [] n i
get_or-zeros (x ∷ xs) n zero = refl
get_or-zeros (x ∷ xs) n (suc i) = get_or-zeros xs n i

pub copy_message_lem :
    (msg : Option (List ℕ))
    → (length (copy_message msg) ≡ 256)
      × ((i : ℕ) → get_or (copy_message msg) i 0 ≡ (if ltb i 255 then byte_of msg i else 0))
unfolding copy_message
copy_message_lem none = (length-replicate {A = ℕ} 256 0, λ i. get_or-zeros [] 256 i ∙ ground arith)
copy_message_lem (some msg) =
    let padded = take 255 msg ++ replicate 256 0 in
    (
      length-take 256 padded
          ∙ omega (
            arith,
            length-append (take 255 msg) (replicate 256 0),
            length-replicate {A = ℕ} 256 0,
          ),
      λ i.
          get_or-take 256 i padded
          ∙ ap (λ (t : ℕ). if ltb i 256 then t else 0)
              (get_or-zeros (take 255 msg) 256 i ∙ get_or-take 255 i msg)
          ∙ ground arith,
    )
