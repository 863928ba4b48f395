-- ===== src/StateServer/FieldMap.antt =====
-- The FieldMap of src/util/globals.h, a std::map from field to bytes: its entries by rising key.
use ardos.Prelude.{
  ℕ, ◌+◌, ◌≡◌, refl, Bool, true, false, Option, none, some, List, [], ◌∷◌, length, arith, ltb, ◌==◌,
  if◌then◌else◌, Bool-cases, inl, inr,
}

abbrev pub FieldMap : Type 0
FieldMap = List (ℕ × List ℕ)

abbrev pub find : ℕ → FieldMap → Option (List ℕ)
find k [] = none
find k ((j, w) ∷ fs) = let rest = find k fs in if k == j then some w else rest

abbrev pub is_some : Option (List ℕ) → Bool
is_some none = false
is_some (some w) = true

-- std::map::contains
abbrev pub contains : ℕ → FieldMap → Bool
contains k fs = is_some (find k fs)

-- `fs[k] = v`
abbrev pub assign : ℕ → List ℕ → FieldMap → FieldMap
assign k v [] = (k, v) ∷ []
assign k v ((j, w) ∷ fs) =
    let rest = assign k v fs in
    if k == j then (k, v) ∷ fs else if ltb k j then (k, v) ∷ (j, w) ∷ fs else (j, w) ∷ rest

-- The reference that `fs[k]` makes: a missing entry is made, with no bytes.
abbrev pub touch : ℕ → FieldMap → FieldMap
touch k fs = if contains k fs then fs else assign k [] fs

abbrev pub bytes_or_none : Option (List ℕ) → List ℕ
bytes_or_none none = []
bytes_or_none (some w) = w

abbrev pub value : ℕ → FieldMap → List ℕ
value k fs = bytes_or_none (find k fs)

abbrev pub is_unset : FieldMap → Bool
is_unset [] = true
is_unset (f ∷ fs) = false

abbrev pub total_size : FieldMap → ℕ
total_size [] = 0
total_size ((j, w) ∷ fs) = length w + total_size fs

pub find-assign :
    (k j : ℕ) (v : List ℕ) (fs : FieldMap)
    → find k (assign j v fs) ≡ (if k == j then some v else find k fs)
find-assign k j v [] = refl
find-assign k j v ((i, w) ∷ fs) = ground (arith, find-assign k j v fs)

pub missing : (o : Option (List ℕ)) → is_some o ≡ false → o ≡ none
missing none h = refl
missing (some w) h = absurd (ground arith)

pub value-touch : (k j : ℕ) (fs : FieldMap) → value k (touch j fs) ≡ value k fs
value-touch k j fs = elim (Bool-cases (contains j fs)) [
  | inl e ↦ rw e refl
  | inr e ↦ rw (e, find-assign k j [] fs) (ground (arith, missing (find j fs) e))
]
