-- ===== src/Prelude/Sets.antt =====
-- Unordered sets and maps: a set is the list of its elements, and a map is a function.
use Prim.Native.Nat.{ℕ, zero, suc, ◌+◌, ◌≤◌, ◌<◌}
use mathlib.Core.Path.{◌≡◌, refl}
use mathlib.Core.Logic.{inl, inr}
use mathlib.Core.Bool.{Bool, true, false, not, ◌&&◌, ◌||◌}
use mathlib.Core.List.{List, [], ◌∷◌}
use native.Mathlib.Omega.{arith}
use ardos.Prelude.Tests.{◌==◌, if◌then◌else◌, Bool-cases}
use ardos.Prelude.Lists.{length}

abbrev pub mem : ℕ → List ℕ → Bool
mem x [] = false
mem x (y ∷ ys) = (x == y) || mem x ys

abbrev pub insert : ℕ → List ℕ → List ℕ
insert x xs = if mem x xs then xs else x ∷ xs

abbrev pub remove : ℕ → List ℕ → List ℕ
remove x [] = []
remove x (y ∷ ys) = let rest = remove x ys in if x == y then rest else y ∷ rest

-- `xs ∪ ys`
abbrev pub insert_all : List ℕ → List ℕ → List ℕ
insert_all [] ys = ys
insert_all (x ∷ xs) ys = insert x (insert_all xs ys)

module _ {ℓ} {A : Type ℓ} where
  abbrev pub update : ℕ → A → (ℕ → A) → ℕ → A
  update k v f j = if j == k then v else f j

-- No element twice.
abbrev pub NoDup : List ℕ → Type 0
NoDup [] = Unit {0}
NoDup (x ∷ xs) = (mem x xs ≡ false) × NoDup xs

pub mem-insert : (y x : ℕ) (xs : List ℕ) → mem y (insert x xs) ≡ (y == x) || mem y xs
mem-insert y x xs = elim (Bool-cases (y == x)) [
  | inl e ↦ ground (arith, mem_eq y x xs e)
  | inr e ↦ ground arith
]
  where
    mem_eq : (y x : ℕ) (xs : List ℕ) → (y == x) ≡ true → mem y xs ≡ mem x xs
    mem_eq y x [] e = refl
    mem_eq y x (z ∷ zs) e = ground (arith, mem_eq y x zs e)

pub mem-remove : (y x : ℕ) (xs : List ℕ) → mem y (remove x xs) ≡ not (y == x) && mem y xs
mem-remove y x [] = ground arith
mem-remove y x (z ∷ zs) = ground (arith, mem-remove y x zs)

pub mem-insert_all : (y : ℕ) (xs ys : List ℕ) → mem y (insert_all xs ys) ≡ mem y xs || mem y ys
mem-insert_all y [] ys = refl
mem-insert_all y (x ∷ xs) ys =
    ground (arith, mem-insert y x (insert_all xs ys), mem-insert_all y xs ys)

pub remove_absent : (x : ℕ) (xs : List ℕ) → mem x xs ≡ false → remove x xs ≡ xs
remove_absent x [] h = refl
remove_absent x (y ∷ ys) h = ground (arith, remove_absent x ys (ground arith))

pub length-remove :
    (x : ℕ) (xs : List ℕ) → NoDup xs → mem x xs ≡ true → length xs ≡ suc (length (remove x xs))
length-remove x [] d h = absurd (ground arith)
length-remove x (y ∷ ys) d h = elim (Bool-cases (x == y)) [
  | inl e ↦ ground (arith, remove_absent x ys (same e))
  | inr e ↦ ground (arith, length-remove x ys d.1 (ground arith))
]
  where
    same : (x == y) ≡ true → mem x ys ≡ false
    same e = let eq : x ≡ y = ground arith in rw eq d.0

pub NoDup-remove : (x : ℕ) (xs : List ℕ) → NoDup xs → NoDup (remove x xs)
NoDup-remove x [] d = tt
NoDup-remove x (y ∷ ys) d = elim (Bool-cases (x == y)) [
  | inl e ↦ rw e (NoDup-remove x ys d.1)
  | inr e ↦ rw e (ground (arith, mem-remove y x ys, d.0), NoDup-remove x ys d.1)
]

-- The numbers of a loop that counts up, `n` of them.
abbrev pub count_up : ℕ → ℕ → List ℕ
count_up zero first = []
count_up (suc n) first = first ∷ count_up n (first + 1)

pub mem-count_up : (n first b : ℕ) → first ≤ b → b < first + n → mem b (count_up n first) ≡ true
mem-count_up zero first b low high = absurd (omega (arith, low, high))
mem-count_up (suc n) first b low high = elim (Bool-cases (b == first)) [
  | inl e ↦ ground arith
  | inr e ↦ ground (arith, mem-count_up n (first + 1) b (ground arith) (ground arith))
]

pub count_up-mem : (n first b : ℕ) → mem b (count_up n first) ≡ true → (first ≤ b) × (b < first + n)
count_up-mem zero first b h = absurd (ground arith)
count_up-mem (suc n) first b h = elim (Bool-cases (b == first)) [
  | inl e ↦ (ground arith, ground arith)
  | inr e ↦
      let (low, high) = count_up-mem n (first + 1) b (ground arith) in
      (omega (arith, low), omega (arith, high))
]
