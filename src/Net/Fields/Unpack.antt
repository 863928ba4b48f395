-- ===== src/Net/Fields/Unpack.antt =====
-- UnpackField of src/net/datagram_iterator.cpp: what it takes from the datagram.
use native.Mathlib.Nat.{add_assoc}
use ardos.Prelude.{
  ℕ, zero, suc, ◌+◌, ◌≤◌, ◌<◌, ◌≡◌, inl, inr, refl, sym, ap, subst, ◌∙◌, List, [], ◌∷◌, ◌++◌,
  length, take, drop, All, All-take, All-drop, take-add, drop-drop, append_assoc, append-nil,
  length-take, length-drop, arith, leb, ◌==◌, Bool-cases,
}
use ardos.Prelude.Words.{le_bytes, le_value, IsByte, le_bytes-le_value}
use ardos.Prelude.Action.{Action, Result, ok, err, eof, pure, continue, ◌>>=◌}
use ardos.Dc.{Dc}
use ardos.Net.Datagram.{size}
use ardos.Net.Datagram.Writes.{IsValid}
use ardos.Net.DatagramIterator.{
  DatagramIterator, advance, copy_out, get_number, get_data, unpack_tagged, unpack_nested,
  unpack_levels, unpack_field,
}
use ardos.Net.DatagramIterator.Reads.{ensure_length_lem}

-- What UnpackField has done when it returns `r`: it took the next bytes to the end of the buffer, or
-- it threw DatagramIteratorEOF.
abbrev pub Took : DatagramIterator → List ℕ → Result (List ℕ) × DatagramIterator → Type 0
Took it buffer (ok out, it') =
    (k : ℕ) × (it' ≡ advance k it)
    × (it.offset + k ≤ size it.dg)
    × (out ≡ buffer ++ take k (drop it.offset it.dg.buf))
Took it buffer (err e, it') = e ≡ eof

-- The datagram behind the iterator holds bytes, as many as it says.
pub record IsSound (it : DatagramIterator) : Type 0 where
  pub valid : IsValid it.dg
  pub are_bytes : All IsByte it.dg.buf
  pub within : it.offset ≤ size it.dg

IsSound-advance :
    (it : DatagramIterator) (k : ℕ)
    → IsSound it
    → it.offset + k ≤ size it.dg
    → IsSound (advance k it)
IsSound-advance it k s h = record { valid = s.valid; are_bytes = s.are_bytes; within = h }

Took-get_data :
    (n : ℕ) (buffer : List ℕ) (finish : List ℕ → List ℕ)
    → ((bytes : List ℕ) → finish bytes ≡ buffer ++ bytes)
    → (it : DatagramIterator) → Took it buffer ((get_data n >>= λ bytes. pure (finish bytes)) it)
unfolding get_data copy_out
Took-get_data n buffer finish same it = elim (Bool-cases (leb (it.offset + n) (size it.dg))) [
  | inl fits ↦
      rw (ensure_length_lem it n, fits)
        (n, refl, ground arith, same (take n (drop it.offset it.dg.buf)))
  | inr short ↦ rw (ensure_length_lem it n, short) refl
]

Took-after :
    (it : DatagramIterator) (k : ℕ) (buffer : List ℕ) (r : Result (List ℕ) × DatagramIterator)
    → it.offset + k ≤ size it.dg
    → Took (advance k it) (buffer ++ take k (drop it.offset it.dg.buf)) r
    → Took it buffer r
Took-after it k buffer (ok out, it') h (j, moved, inside, bytes) = (
  k + j,
  moved ∙ ap (λ (n : ℕ). record it { offset = n }) (add_assoc it.offset k j),
  omega (arith, inside),
  rw (take-add k j (drop it.offset it.dg.buf), drop-drop it.offset k it.dg.buf)
      (bytes ∙ append_assoc buffer _ _),
)
Took-after it k buffer (err e, it') h t = t

Took-continue :
    (it : DatagramIterator) (buffer : List ℕ) (r : Result (List ℕ) × DatagramIterator)
    (rest : List ℕ → Action DatagramIterator (List ℕ))
    → Took it buffer r
    → ((k : ℕ) (b : List ℕ)
        → it.offset + k ≤ size it.dg
        → Took (advance k it) b (rest b (advance k it)))
    → Took it buffer (continue r rest)
Took-continue it buffer (ok out, it') rest (k, moved, inside, bytes) next =
    rw (moved, bytes) (Took-after it k buffer _ inside (next k _ inside))
Took-continue it buffer (err e, it') rest t next = t

tag_bytes :
    (w : ℕ) (it : DatagramIterator)
    → IsSound it
    → it.offset + w ≤ size it.dg
    → le_bytes w (le_value (take w (drop it.offset it.dg.buf))) ≡ take w (drop it.offset it.dg.buf)
tag_bytes w it s h =
    subst (λ n. le_bytes n (le_value tag) ≡ tag) len
      (le_bytes-le_value tag (All-take IsByte w _ (All-drop IsByte it.offset _ s.are_bytes)))
  where
    tag : List ℕ
    tag = take w (drop it.offset it.dg.buf)

    len : length tag ≡ w
    len = omega (
      arith,
      length-take w (drop it.offset it.dg.buf),
      length-drop it.offset it.dg.buf,
      s.valid.lengths,
      s.valid.within,
    )

Took-tagged :
    (w : ℕ) (buffer : List ℕ) (it : DatagramIterator)
    → IsSound it
    → Took it buffer (
        (get_number w >>= λ tag.
        get_data tag >>= λ bytes. pure (buffer ++ (le_bytes w tag ++ bytes)))
          it)
unfolding get_number copy_out
Took-tagged w buffer it s = elim (Bool-cases (leb (it.offset + w) (size it.dg))) [
  | inl fits ↦
      rw (ensure_length_lem it w, fits)
        (Took-after it w buffer _ (ground arith) (
          Took-get_data _ (buffer ++ take w (drop it.offset it.dg.buf)) _
            (λ bytes.
              ap (λ t. buffer ++ (t ++ bytes)) (tag_bytes w it s (ground arith))
              ∙ sym (append_assoc buffer _ bytes))
            (advance w it)))
  | inr short ↦ rw (ensure_length_lem it w, short) refl
]

advance_zero : (it : DatagramIterator) → it ≡ advance 0 it
advance_zero it =
    let e : it.offset ≡ it.offset + 0 = omega arith in ap (λ (n : ℕ). record it { offset = n }) e

module _ (dc : Dc) where
  Took-unpack_tagged :
      (n : ℕ) (buffer : List ℕ) (it : DatagramIterator)
      → IsSound it
      → Took it buffer (unpack_tagged dc n buffer it)
  unfolding unpack_tagged
  Took-unpack_tagged n buffer it s = elim (Bool-cases (n == 2)) [
    | inl two ↦ rw two (Took-tagged 2 buffer it s)
    | inr other ↦ rw other (elim (Bool-cases (n == 4)) [
      | inl four ↦ rw four (Took-tagged 4 buffer it s)
      | inr bad ↦ rw bad refl
    ])
  ]

  Took-unpack_nested :
      (unpack : ℕ → List ℕ → Action DatagramIterator (List ℕ)) (gs buffer : List ℕ)
      (it : DatagramIterator)
      → All (λ g. (b : List ℕ) (it : DatagramIterator) → IsSound it → Took it b (unpack g b it)) gs
      → IsSound it
      → Took it buffer (unpack_nested dc unpack gs buffer it)
  unfolding unpack_nested
  Took-unpack_nested unpack [] buffer it h s =
      (0, advance_zero it, omega (arith, s.within), sym (append-nil buffer))
  Took-unpack_nested unpack (g ∷ gs) buffer it h s =
      Took-continue it buffer (unpack g buffer it) (unpack_nested dc unpack gs) (h.0 buffer it s)
        (λ k b inside.
          Took-unpack_nested unpack gs b (advance k it) h.1 (IsSound-advance it k s inside))

  All-lower :
      (levels : ℕ) (unpack : ℕ → List ℕ → Action DatagramIterator (List ℕ))
      → ((field : ℕ)
          → dc.depth field < levels
          → (b : List ℕ) (it : DatagramIterator) → IsSound it
          → Took it b (unpack field b it))
      → (m : ℕ) → m ≤ levels
      → (gs : List ℕ) → All (λ g. dc.depth g < m) gs
      → All (λ g. (b : List ℕ) (it : DatagramIterator) → IsSound it → Took it b (unpack g b it)) gs
  All-lower levels unpack each m le [] h = tt
  All-lower levels unpack each m le (g ∷ gs) h =
      (each g (omega (arith, h.0, le)), All-lower levels unpack each m le gs h.1)

  Took-unpack_levels :
      (levels field : ℕ)
      → dc.depth field < levels
      → (buffer : List ℕ) (it : DatagramIterator) → IsSound it
      → Took it buffer (unpack_levels dc levels field buffer it)
  unfolding unpack_levels
  Took-unpack_levels zero field low buffer it s = absurd (omega (arith, low))
  Took-unpack_levels (suc levels) field low buffer it s =
      elim (Bool-cases (dc.has_fixed_byte_size field)) [
        | inl fixed ↦
            rw fixed (Took-get_data (dc.fixed_byte_size field) buffer _ (λ bytes. refl) it)
        | inr free ↦ rw free (elim (Bool-cases (dc.num_length_bytes field == 0)) [
          | inl none ↦ rw none (
              Took-unpack_nested (unpack_levels dc levels) (dc.nested_fields field) buffer it
                (All-lower levels (unpack_levels dc levels) (Took-unpack_levels levels)
                  (dc.depth field) (omega (arith, low)) (dc.nested_fields field)
                  (dc.nested_lower field))
                s)
          | inr tag ↦ rw tag (Took-unpack_tagged (dc.num_length_bytes field) buffer it s)
        ])
      ]

  -- On a datagram whose buffer is at least as long as it says and holds bytes, and an iterator inside
  -- it, UnpackField of any field of any finite DC file appends to the buffer exactly the bytes that it
  -- moves the iterator over, all of them inside the datagram, or throws DatagramIteratorEOF; its
  -- recursion over the nested fields ends.
  pub Took-unpack_field :
      (field : ℕ) (buffer : List ℕ) (it : DatagramIterator)
      → IsSound it
      → Took it buffer (unpack_field dc field buffer it)
  unfolding unpack_field
  Took-unpack_field field buffer it s =
      Took-unpack_levels (suc (dc.depth field)) field (omega arith) buffer it s
