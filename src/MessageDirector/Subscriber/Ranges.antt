-- ===== src/MessageDirector/Subscriber/Ranges.antt =====
-- The buckets of ranges: what the loops over buckets and WithinLocalRange have to do with each other.
use ardos.Prelude.{
  ℕ, suc, ◌+◌, ◌-◌, ◌≤◌, ◌≡◌, inl, inr, refl, ap, Bool, true, false, not, ◌&&◌, ◌||◌, List, [], ◌∷◌,
  ◌++◌, length, arith, leb, ◌==◌, Bool-cases,
}
use ardos.Prelude.Sets.{mem, mem-count_up}
use ardos.MessageDirector.Subscriber.{
  bucket_of, buckets, same_range, mem_range, erase_range, back, within_local_range,
}

-- Whether one of the ranges touches the bucket.
abbrev pub covers : ℕ → List (ℕ × ℕ) → Bool
covers b [] = false
covers b (r ∷ rs) = mem b (buckets r) || covers b rs

-- Whether no range touches any of the buckets.
abbrev pub apart : List ℕ → List (ℕ × ℕ) → Bool
apart [] rs = true
apart (b ∷ bs) rs = not (covers b rs) && apart bs rs

pub covers-append :
    (b : ℕ) (rs : List (ℕ × ℕ)) (r : ℕ × ℕ)
    → covers b (rs ++ (r ∷ [])) ≡ covers b rs || mem b (buckets r)
covers-append b [] r = ground arith
covers-append b (q ∷ rs) r = ground (arith, covers-append b rs r)

pub mem-buckets :
    (min max c : ℕ) → min ≤ c → c ≤ max → mem (bucket_of c) (buckets (min, max)) ≡ true
mem-buckets min max c low high =
    mem-count_up (bucket_of max + 1 - bucket_of min) (bucket_of min) (bucket_of c)
      (omega (arith, low)) (omega (arith, low, high))

-- A channel within a range is in one of its buckets.
pub covers-within :
    (c : ℕ) (rs : List (ℕ × ℕ)) → within_local_range c rs ≡ true → covers (bucket_of c) rs ≡ true
covers-within c [] h = absurd (ground arith)
covers-within c ((min, max) ∷ rs) h = elim (Bool-cases (leb min c && leb c max)) [
  | inl e ↦ ground (arith, mem-buckets min max c (ground arith) (ground arith))
  | inr e ↦ ground (arith, covers-within c rs (ground arith))
]

same_range-eq : (q r : ℕ × ℕ) → same_range q r ≡ true → q ≡ r
same_range-eq (a, b) (c, d) h =
    let e : a ≡ c = ground arith in let f : b ≡ d = ground arith in rw (e, f) refl

pub covers-erase_range :
    (b : ℕ) (r : ℕ × ℕ) (rs : List (ℕ × ℕ))
    → mem_range r rs ≡ true
    → covers b rs ≡ mem b (buckets r) || covers b (erase_range r rs)
covers-erase_range b r [] h = absurd (ground arith)
covers-erase_range b r (q ∷ rs) h = elim (Bool-cases (same_range q r)) [
  | inl e ↦ rw (e, same_range-eq q r e) refl
  | inr e ↦
      let rest : mem_range r rs ≡ true = ground arith in
      let ih = covers-erase_range b r rs rest in rw e (ground arith)
]

pub length-erase_range :
    (r : ℕ × ℕ) (rs : List (ℕ × ℕ))
    → mem_range r rs ≡ true
    → length rs ≡ suc (length (erase_range r rs))
length-erase_range r [] h = absurd (ground arith)
length-erase_range r (q ∷ rs) h = elim (Bool-cases (same_range q r)) [
  | inl e ↦ rw e refl
  | inr e ↦
      let rest : mem_range r rs ≡ true = ground arith in
      rw e (ap suc (length-erase_range r rs rest))
]

same_range_refl : (r : ℕ × ℕ) → same_range r r ≡ true
same_range_refl (a, b) = ground arith

pub mem_range-back :
    (rs : List (ℕ × ℕ)) (q : ℕ × ℕ) → (length rs == 0) ≡ false → mem_range (back q rs) rs ≡ true
mem_range-back [] q h = absurd (ground arith)
mem_range-back (r ∷ []) q h = ground (arith, same_range_refl r)
mem_range-back (r ∷ p ∷ rs) q h = ground (arith, mem_range-back (p ∷ rs) r (ground arith))

pub apart-covers :
    (bs : List ℕ) (rs : List (ℕ × ℕ)) (b : ℕ)
    → apart bs rs ≡ true
    → mem b bs ≡ true
    → covers b rs ≡ false
apart-covers [] rs b h m = absurd (ground arith)
apart-covers (x ∷ bs) rs b h m = elim (Bool-cases (b == x)) [
  | inl e ↦ let eq : b ≡ x = ground arith in rw eq (ground arith)
  | inr e ↦ apart-covers bs rs b (ground arith) (ground arith)
]
