-- ===== src/Net/Fields/Skip.antt =====
-- SkipField against UnpackField of src/net/datagram_iterator.cpp.

use ardos.Prelude.{
  ℕ, zero, suc, ◌≡◌, ◌⊎◌, inl, inr, refl, List, [], ◌∷◌, ◌++◌, arith, ◌==◌, Bool-cases,
}
use ardos.Prelude.Action.{Action, Result, ok, err, pure, continue, ◌>>=◌}
use ardos.Dc.{Dc}
use ardos.Net.DatagramIterator.{
  DatagramIterator, get_data, skip, unpack_tagged, unpack_nested, unpack_levels, unpack_field,
  skip_tagged, skip_nested, skip_levels, skip_field,
}

-- The result of a call without its value.
abbrev pub forget {ℓ} :
    {A : Type ℓ} → Result A × DatagramIterator → Result (Unit {0}) × DatagramIterator
forget (ok a, it) = (ok tt, it)
forget (err e, it) = (err e, it)

-- The library has length tags of two and four bytes, and none where the size is fixed or nested.
abbrev pub KnownTags : Dc → Type 0
KnownTags dc =
    (f : ℕ)
    → (dc.num_length_bytes f ≡ 0) ⊎ ((dc.num_length_bytes f ≡ 2) ⊎ (dc.num_length_bytes f ≡ 4))

skip-get_data :
    (n : ℕ) (buffer : List ℕ) (it : DatagramIterator)
    → skip n it ≡ forget ((get_data n >>= λ bytes. pure (buffer ++ bytes)) it)
unfolding skip get_data
skip-get_data n buffer it = ground arith

continue-forget :
    (r : Result (List ℕ) × DatagramIterator) (m : Action DatagramIterator (Unit {0}))
    (k : List ℕ → Action DatagramIterator (List ℕ))
    → ((b : List ℕ) (it : DatagramIterator) → m it ≡ forget (k b it))
    → continue (forget r) (λ _. m) ≡ forget (continue r k)
continue-forget (ok b, it) m k same = same b it
continue-forget (err e, it) m k same = refl

module _ (dc : Dc) where
  skip_tagged-unpack_tagged :
      (n : ℕ) (buffer : List ℕ) (it : DatagramIterator)
      → (n ≡ 2) ⊎ (n ≡ 4)
      → skip_tagged dc n it ≡ forget (unpack_tagged dc n buffer it)
  unfolding skip_tagged unpack_tagged
  skip_tagged-unpack_tagged n buffer it h = ground arith

  skip_nested-unpack_nested :
      (skip_one : ℕ → Action DatagramIterator (Unit {0}))
      (unpack : ℕ → List ℕ → Action DatagramIterator (List ℕ))
      → ((g : ℕ) (buffer : List ℕ) (it : DatagramIterator)
          → skip_one g it ≡ forget (unpack g buffer it))
      → (gs buffer : List ℕ) (it : DatagramIterator)
      → skip_nested dc skip_one gs it ≡ forget (unpack_nested dc unpack gs buffer it)
  unfolding skip_nested unpack_nested
  skip_nested-unpack_nested skip_one unpack same [] buffer it = refl
  skip_nested-unpack_nested skip_one unpack same (g ∷ gs) buffer it = rw (same g buffer it) (
      continue-forget (unpack g buffer it) (skip_nested dc skip_one gs) (unpack_nested dc unpack gs)
        (skip_nested-unpack_nested skip_one unpack same gs))

  skip_levels-unpack_levels :
      KnownTags dc
      → (levels field : ℕ) (buffer : List ℕ) (it : DatagramIterator)
      → skip_levels dc levels field it ≡ forget (unpack_levels dc levels field buffer it)
  unfolding skip_levels unpack_levels
  skip_levels-unpack_levels known zero field buffer it = refl
  skip_levels-unpack_levels known (suc levels) field buffer it =
      elim (Bool-cases (dc.has_fixed_byte_size field)) [
        | inl fixed ↦ rw fixed (skip-get_data (dc.fixed_byte_size field) buffer it)
        | inr free ↦ rw free (elim (Bool-cases (dc.num_length_bytes field == 0)) [
          | inl none ↦ rw none (
              skip_nested-unpack_nested (skip_levels dc levels) (unpack_levels dc levels)
                (skip_levels-unpack_levels known levels) (dc.nested_fields field) buffer it)
          | inr tag ↦ rw tag (
              skip_tagged-unpack_tagged (dc.num_length_bytes field) buffer it
                (ground (arith, known field)))
        ])
      ]

  -- Where every length tag of the DC file has no, two or four bytes, SkipField does what UnpackField
  -- does on every field, iterator and buffer, but for the value: it throws when that throws, the same,
  -- and otherwise leaves the iterator at the same place.
  pub skip_field-unpack_field :
      KnownTags dc
      → (field : ℕ) (buffer : List ℕ) (it : DatagramIterator)
      → skip_field dc field it ≡ forget (unpack_field dc field buffer it)
  unfolding skip_field unpack_field
  skip_field-unpack_field known field buffer it =
      skip_levels-unpack_levels known (suc (dc.depth field)) field buffer it
