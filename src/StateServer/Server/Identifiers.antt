-- ===== src/StateServer/Server/Identifiers.antt =====
-- The objects of src/stateserver/state_server.cpp by their identifiers.
use ardos.Prelude.{
  ℕ, ◌≡◌, refl, sym, subst, ◌∙◌, false, ◌||◌, none, some, List, [], ◌∷◌, arith, ◌==◌, if◌then◌else◌,
  ◌⊎◌, Bool-cases, inl, inr,
}
use ardos.Prelude.Sets.{mem}
use ardos.StateServer.DistributedObject.{DistributedObject}
use ardos.StateServer.Server.{Objects, find_object, put_object, erase_object}

abbrev pub identifiers : Objects → List ℕ
identifiers [] = []
identifiers ((j, o) ∷ os) = j ∷ identifiers os

-- Every object stands once, under its own identifier.
abbrev pub AreConsistent : Objects → Type 0
AreConsistent [] = Unit {0}
AreConsistent ((j, o) ∷ os) = (mem j (identifiers os) ≡ false) × ((o.do_id ≡ j) × AreConsistent os)

pub mem-identifiers-put :
    (x k : ℕ) (o : DistributedObject) (os : Objects)
    → mem x (identifiers (put_object k o os)) ≡ (x == k) || mem x (identifiers os)
mem-identifiers-put x k o [] = refl
mem-identifiers-put x k o ((j, p) ∷ os) = elim (Bool-cases (k == j)) [
  | inl e ↦ rw e (ground arith)
  | inr e ↦ rw (e, mem-identifiers-put x k o os) (ground arith)
]

pub put-AreConsistent :
    (k : ℕ) (o : DistributedObject) (os : Objects)
    → o.do_id ≡ k
    → AreConsistent os
    → AreConsistent (put_object k o os)
put-AreConsistent k o [] h a = (refl, (h, tt))
put-AreConsistent k o ((j, p) ∷ os) h (new, (same, a)) = elim (Bool-cases (k == j)) [
  | inl e ↦
      let eq : k ≡ j = ground arith in
      rw e (subst (λ n. mem n (identifiers os) ≡ false) (sym eq) new, (h, a))
  | inr e ↦ rw e (mem-identifiers-put j k o os ∙ ground arith, (same, put-AreConsistent k o os h a))
]

absent-erase :
    (x k : ℕ) (os : Objects)
    → mem x (identifiers os) ≡ false
    → mem x (identifiers (erase_object k os)) ≡ false
absent-erase x k [] h = refl
absent-erase x k ((j, o) ∷ os) h = elim (Bool-cases (k == j)) [
  | inl e ↦ rw e (absent-erase x k os (ground arith))
  | inr e ↦ rw (e, absent-erase x k os (ground arith)) (ground arith)
]

pub erase-AreConsistent :
    (k : ℕ) (os : Objects) → AreConsistent os → AreConsistent (erase_object k os)
erase-AreConsistent k [] a = tt
erase-AreConsistent k ((j, o) ∷ os) (new, (same, a)) = elim (Bool-cases (k == j)) [
  | inl e ↦ rw e (erase-AreConsistent k os a)
  | inr e ↦ rw e (absent-erase j k os new, (same, erase-AreConsistent k os a))
]

pub find-put :
    (x k : ℕ) (o : DistributedObject) (os : Objects)
    → find_object x (put_object k o os) ≡ (if x == k then some o else find_object x os)
find-put x k o [] = refl
find-put x k o ((j, p) ∷ os) = elim (Bool-cases (k == j)) [
  | inl e ↦ let eq : k ≡ j = ground arith in rw eq (ground arith)
  | inr e ↦ rw (e, find-put x k o os) (ground arith)
]

pub find-erase :
    (x k : ℕ) (os : Objects)
    → find_object x (erase_object k os) ≡ (if x == k then none else find_object x os)
find-erase x k [] = ground arith
find-erase x k ((j, p) ∷ os) = elim (Bool-cases (k == j)) [
  | inl e ↦ let eq : k ≡ j = ground arith in rw (e, find-erase x k os) (ground arith)
  | inr e ↦ rw (e, find-erase x k os) (ground arith)
]

-- Nothing is lost or replaced from one map of objects to the other, and what is new stands under its own
-- identifier.
abbrev pub OnlyAdds : Objects → Objects → Type 0
OnlyAdds before after =
    (x : ℕ)
    → (find_object x after ≡ find_object x before)
      ⊎ ((find_object x before ≡ none)
          × ((o : DistributedObject) × ((find_object x after ≡ some o) × (o.do_id ≡ x))))

-- What a step of the server may do to its objects.
pub record IsOrderly (before after : Objects) : Type 0 where
  pub consistent : AreConsistent before → AreConsistent after
  pub adds : OnlyAdds before after

pub IsOrderly-refl : (os : Objects) → IsOrderly os os
IsOrderly-refl os = record { consistent = λ a. a; adds = λ x. inl refl }

pub IsOrderly-trans : {a b c : Objects} → IsOrderly a b → IsOrderly b c → IsOrderly a c
IsOrderly-trans {a} {b} {c} f g = record {
  consistent = λ x. g.consistent (f.consistent x);
  adds = λ x. elim (g.adds x) [
    | inl same ↦ elim (f.adds x) [
      | inl was ↦ inl (same ∙ was)
      | inr (new, (o, (at, own))) ↦ inr (new, (o, (same ∙ at, own)))
    ]
    | inr (new, rest) ↦ elim (f.adds x) [
      | inl was ↦ inr (sym was ∙ new, rest)
      | inr (_, (o, (at, own))) ↦ absurd (cc (sym new ∙ at))
    ]
  ];
}

pub put-IsOrderly :
    (k : ℕ) (o : DistributedObject) (os : Objects)
    → o.do_id ≡ k
    → find_object k os ≡ none
    → IsOrderly os (put_object k o os)
put-IsOrderly k o os own new = record {
  consistent = put-AreConsistent k o os own;
  adds = λ x. elim (Bool-cases (x == k)) [
    | inl e ↦
        let eq : x ≡ k = ground arith in
        rw (find-put x k o os, e) (inr (rw eq new, (o, (refl, own ∙ sym eq))))
    | inr e ↦ inl (rw (find-put x k o os, e) refl)
  ];
}
