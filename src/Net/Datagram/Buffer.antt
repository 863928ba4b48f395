-- ===== src/Net/Datagram/Buffer.antt =====
-- The copies inside the allocation of a datagram.
use ardos.Prelude.{ℕ, zero, suc, ◌+◌, ◌≤◌, ◌≡◌, refl, ap, List, [], ◌∷◌, ◌++◌, length, take, arith}
use native.Mathlib.Nat.{zero-add}
use Prim.Native.Nat.add
use ardos.Net.Datagram.{blit}

pub length-blit : (buf : List ℕ) (o : ℕ) (xs : List ℕ) → length (blit buf o xs) ≡ length buf
length-blit [] o xs = refl
length-blit (b ∷ bs) zero [] = refl
length-blit (b ∷ bs) zero (x ∷ xs) = ap suc (length-blit bs zero xs)
length-blit (b ∷ bs) (suc o) xs = ap suc (length-blit bs o xs)

-- A copy that fits extends what stands below it.
pub take-blit :
    (buf : List ℕ) (o : ℕ) (xs : List ℕ)
    → o + length xs ≤ length buf
    → take (o + length xs) (blit buf o xs) ≡ take o buf ++ xs
take-blit [] zero [] h = refl
take-blit [] zero (x ∷ xs) h = absurd (omega arith)
take-blit [] (suc o) xs h = absurd (omega arith)
take-blit (b ∷ bs) zero [] h = refl
take-blit (b ∷ bs) zero (x ∷ xs) h =
    rw zero-add (ap (◌∷◌ x) (rw zero-add at (take-blit bs zero xs (omega arith))))
take-blit (b ∷ bs) (suc o) xs h = rw add.suc (ap (◌∷◌ b) (take-blit bs o xs (omega arith)))

-- A copy at the start of a larger row of bytes keeps all that is copied.
pub take-blit_zero :
    (buf : List ℕ) (xs : List ℕ) (n : ℕ)
    → length xs ≤ length buf
    → n ≤ length xs
    → take n (blit buf 0 xs) ≡ take n xs
take-blit_zero buf xs zero h k = refl
take-blit_zero buf [] (suc n) h k = absurd (omega arith)
take-blit_zero [] (x ∷ xs) (suc n) h k = absurd (omega arith)
take-blit_zero (b ∷ bs) (x ∷ xs) (suc n) h k =
    ap (◌∷◌ x) (take-blit_zero bs xs n (omega arith) (omega arith))
