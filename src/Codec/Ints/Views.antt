-- ===== src/Codec/Ints/Views.antt =====
-- Views into an array, as the encoders and the decoders take them.
use tsjam.Prelude.{ℕ, zero, suc, ◌+◌, ◌-◌, ◌≤◌, ◌≡◌, refl, ap, arith}
use tsjam.Prelude.{List, [], ◌∷◌, ◌++◌}
use tsjam.Prelude.{length, take, drop, take-append, length-take}
use tsjam.Codec.Buffer.{subarray}
use tsjam.Codec.Ints.{}

pub take_exact : (n : ℕ) (xs : List ℕ) → n ≡ length xs → take n xs ≡ xs
take_exact zero [] e = refl
take_exact zero (x ∷ xs) e = absurd (omega arith)
take_exact (suc n) [] e = absurd (omega arith)
take_exact (suc n) (x ∷ xs) e = ap (λ (t : List ℕ). x ∷ t) (take_exact n xs (omega arith))

pub take_front : (n : ℕ) (xs rest : List ℕ) → n ≡ length xs → take n (xs ++ rest) ≡ xs
take_front n xs rest e = rw e (take-append xs rest)

-- The view behind the first byte, and the first bytes of that view.
pub view :
    (l first : ℕ) (xs rest : List ℕ) → length xs ≡ l → subarray (first ∷ xs ++ rest) 1 (l + 1) ≡ xs
unfolding subarray
view l first xs rest e = take_front (l + 1 - 1) xs rest (omega arith)

pub view_view :
    (l first : ℕ) (xs rest : List ℕ)
    → length xs ≡ l
    → subarray (subarray (first ∷ xs ++ rest) 1 (l + 1)) 0 l ≡ xs
view_view l first xs rest e =
    rw (view l first xs rest e) (unfold subarray in take_exact (l - 0) xs (omega arith))

-- What an encoder leaves in an array: the code, and behind it what stood there.
abbrev pub over : List ℕ → List ℕ → List ℕ
over code bytes = code ++ drop (length code) bytes

pub length-subarray :
    (l : ℕ) (first : ℕ) (bs : List ℕ) → l ≤ length bs → length (subarray (first ∷ bs) 1 (l + 1)) ≡ l
unfolding subarray
length-subarray l first bs h = omega (arith, length-take (l + 1 - 1) bs)

pub drop-take : (l m : ℕ) (bs : List ℕ) → l ≡ m → drop l (take m bs) ≡ []
drop-take zero zero bs e = refl
drop-take zero (suc m) bs e = absurd (omega arith)
drop-take (suc l) zero bs e = refl
drop-take (suc l) (suc m) [] e = refl
drop-take (suc l) (suc m) (b ∷ bs) e = drop-take l m bs (omega arith)

pub drop_view : (l first : ℕ) (bs : List ℕ) → drop l (subarray (first ∷ bs) 1 (l + 1)) ≡ []
unfolding subarray
drop_view l first bs = drop-take l (l + 1 - 1) bs (omega arith)
