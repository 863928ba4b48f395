-- ===== src/StateServer/DistributedObject/Fields/Gets.antt =====
-- The recursion of HandleOneGet in src/stateserver/distributed_object.cpp.
use ardos.Prelude.{
  ℕ, ◌+◌, ◌≡◌, ◌≢◌, refl, Bool, true, false, Option, none, some, List, [], ◌∷◌, All, length, ltb,
  ◌==◌, Bool-cases, inl, inr,
}
use ardos.Prelude.Action.{
  Action, Result, ok, err, overflow, eof, invalid, stuck, pure, ◌>>=◌, continue,
}
use ardos.Dc.{Dc}
use ardos.Net.Datagram.{Datagram, max_dg_size, ensure_length, put, add_uint16, add_data}
use ardos.StateServer.DistributedObject.{DistributedObject}
use ardos.StateServer.DistributedObject.Fields.{
  add_value, get_value, get_atomics, get_parts, get_field, get_levels, handle_one_get,
}

-- The recursion of the action does not run out of levels, whatever datagram it writes to.
record Ends {ℓ} {A : Type ℓ} (m : Action Datagram A) : Type ℓ where
  pub each : (dg : Datagram) → (m dg).0 ≢ err stuck

Ends-next {ℓ κ} :
    {A : Type ℓ} {B : Type κ} (r : Result A × Datagram) (f : A → Action Datagram B)
    → r.0 ≢ err stuck
    → ((a : A) → Ends (f a))
    → (continue r f).0 ≢ err stuck
Ends-next (ok a, dg) f h kf = (kf a).each dg
Ends-next (err overflow, dg) f h kf = λ e. absurd (cc e)
Ends-next (err eof, dg) f h kf = λ e. absurd (cc e)
Ends-next (err invalid, dg) f h kf = λ e. absurd (cc e)
Ends-next (err stuck, dg) f h kf = absurd (h refl)

Ends-bind {ℓ κ} :
    {A : Type ℓ} {B : Type κ} (m : Action Datagram A) (f : A → Action Datagram B)
    → Ends m
    → ((a : A) → Ends (f a))
    → Ends (m >>= f)
Ends-bind m f km kf = record { each = λ dg. Ends-next (m dg) f (km.each dg) kf }

Ends-pure {ℓ} : {A : Type ℓ} (a : A) → Ends (pure {S = Datagram} a)
Ends-pure a = record { each = λ dg e. absurd (cc e) }

ensure_length-Ends : (n : ℕ) → Ends (ensure_length n)
unfolding ensure_length
ensure_length-Ends n = record {
  each = λ dg. elim (Bool-cases (ltb max_dg_size (dg.buf_offset + n))) [
    | inl e ↦ rw e (λ h. absurd (cc h))
    | inr e ↦ elim (Bool-cases (ltb dg.buf_length (dg.buf_offset + n))) [
      | inl more ↦ rw (e, more) (λ h. absurd (cc h))
      | inr room ↦ rw (e, room) (λ h. absurd (cc h))
    ]
  ];
}

put-Ends : (bytes : List ℕ) → Ends (put bytes)
unfolding put
put-Ends bytes = record { each = λ dg e. absurd (cc e) }

add_uint16-Ends : (v : ℕ) → Ends (add_uint16 v)
unfolding add_uint16
add_uint16-Ends v = Ends-bind (ensure_length 2) _ (ensure_length-Ends 2) λ _. put-Ends _

add_data-Ends : (v : List ℕ) → Ends (add_data v)
unfolding add_data
add_data-Ends [] = Ends-pure tt
add_data-Ends (x ∷ xs) = elim (Bool-cases (length (x ∷ xs) == 0)) [
  | inl e ↦ rw e (Ends-pure tt)
  | inr e ↦
      rw e (Ends-bind (ensure_length (length (x ∷ xs))) _ (ensure_length-Ends _) λ _. put-Ends _)
]

module _ (dc : Dc) where
  add_value-Ends :
      (is_subfield : Bool) (field_id : ℕ) (bytes : List ℕ)
      → Ends (add_value dc is_subfield field_id bytes)
  add_value-Ends true field_id bytes =
      Ends-bind (add_data bytes) (λ _. pure true) (add_data-Ends bytes) λ _. Ends-pure true
  add_value-Ends false field_id bytes =
      Ends-bind (add_uint16 field_id) (λ _. add_data bytes >>= λ _. pure true)
        (add_uint16-Ends field_id)
        λ _. Ends-bind (add_data bytes) (λ _. pure true) (add_data-Ends bytes) λ _. Ends-pure true

  get_value-Ends :
      (field_id : ℕ) (succeed_if_unset is_subfield : Bool) (required ram : Option (List ℕ))
      → Ends (get_value dc field_id succeed_if_unset is_subfield required ram)
  unfolding get_value
  get_value-Ends field_id succeed_if_unset is_subfield (some bytes) ram =
      add_value-Ends is_subfield field_id bytes
  get_value-Ends field_id succeed_if_unset is_subfield none (some bytes) =
      add_value-Ends is_subfield field_id bytes
  get_value-Ends field_id succeed_if_unset is_subfield none none = Ends-pure succeed_if_unset

  -- What the class has under the number of a part of a molecular field is not molecular.
  abbrev pub IsFlat : ℕ → Type 0
  IsFlat dclass =
      (field molecular : ℕ)
      → dc.as_molecular_field field ≡ some molecular
      → All
          (λ a.
            (g : ℕ)
            → dc.field_by_index dclass (dc.field_number a) ≡ some g
            → dc.as_molecular_field g ≡ none)
          (dc.atomics molecular)

  get_atomics-Ends :
      (get : ℕ → Action Datagram Bool) (atomics : List ℕ)
      → All (λ a. Ends (get (dc.field_number a))) atomics
      → Ends (get_atomics dc get atomics)
  unfolding get_atomics
  get_atomics-Ends get [] e = Ends-pure true
  get_atomics-Ends get (atomic ∷ atomics) (first, e) =
      Ends-bind (get (dc.field_number atomic)) _ first
        elim [ true ↦ get_atomics-Ends get atomics e | false ↦ Ends-pure false ]

  parts-Ends :
      (get : ℕ → Action Datagram Bool) (molecular : Option ℕ) (o : DistributedObject)
      (field_id field : ℕ) (succeed_if_unset is_subfield : Bool)
      → ((m : ℕ) → molecular ≡ some m → All (λ a. Ends (get (dc.field_number a))) (dc.atomics m))
      → Ends (get_parts dc get molecular o field_id field succeed_if_unset is_subfield)
  unfolding get_parts
  parts-Ends get none o field_id field succeed_if_unset is_subfield h =
      get_value-Ends field_id succeed_if_unset is_subfield _ _
  parts-Ends get (some m) o field_id field succeed_if_unset is_subfield h =
      Ends-bind (add_uint16 field_id) _ (add_uint16-Ends field_id)
        λ _. get_atomics-Ends get (dc.atomics m) (h m refl)

  field-Ends :
      (get : ℕ → Action Datagram Bool) (field : Option ℕ) (o : DistributedObject) (field_id : ℕ)
      (succeed_if_unset is_subfield : Bool)
      → ((f m : ℕ)
          → field ≡ some f
          → dc.as_molecular_field f ≡ some m
          → All (λ a. Ends (get (dc.field_number a))) (dc.atomics m))
      → Ends (get_field dc get field o field_id succeed_if_unset is_subfield)
  unfolding get_field
  field-Ends get none o field_id succeed_if_unset is_subfield h = Ends-pure false
  field-Ends get (some f) o field_id succeed_if_unset is_subfield h =
      parts-Ends get (dc.as_molecular_field f) o field_id f succeed_if_unset is_subfield
        (λ m e. h f m refl e)

  part-Ends :
      (o : DistributedObject) (number : ℕ) (succeed_if_unset : Bool)
      → ((g : ℕ) → dc.field_by_index o.dclass number ≡ some g → dc.as_molecular_field g ≡ none)
      → Ends (get_levels dc 1 o number succeed_if_unset true)
  unfolding get_levels
  part-Ends o number succeed_if_unset flat =
      field-Ends (λ n. get_levels dc 0 o n succeed_if_unset true)
        (dc.field_by_index o.dclass number) o number succeed_if_unset true
        (λ f m e e'. absurd (cc (flat f e, e')))

  each_part :
      (o : DistributedObject) (succeed_if_unset : Bool) (atomics : List ℕ)
      → All
          (λ a.
            (g : ℕ)
            → dc.field_by_index o.dclass (dc.field_number a) ≡ some g
            → dc.as_molecular_field g ≡ none)
          atomics
      → All (λ a. Ends (get_levels dc 1 o (dc.field_number a) succeed_if_unset true)) atomics
  each_part o succeed_if_unset [] h = tt
  each_part o succeed_if_unset (a ∷ rest) (flat, h) =
      (part-Ends o (dc.field_number a) succeed_if_unset flat, each_part o succeed_if_unset rest h)

  -- For a class in which the parts of molecular fields are not molecular themselves, the recursion of
  -- HandleOneGet ends within its two levels: whatever field is asked for, and whatever it writes to,
  -- the call returns, or throws an exception of the program.
  pub handle_one_get_ends :
      (o : DistributedObject) (field_id : ℕ) (succeed_if_unset is_subfield : Bool) (dg : Datagram)
      → IsFlat o.dclass
      → (handle_one_get dc o field_id succeed_if_unset is_subfield dg).0 ≢ err stuck
  unfolding handle_one_get get_levels
  handle_one_get_ends o field_id succeed_if_unset is_subfield dg flat =
      (field-Ends (λ n. get_levels dc 1 o n succeed_if_unset true)
          (dc.field_by_index o.dclass field_id) o field_id succeed_if_unset is_subfield
          (λ f m e e'. each_part o succeed_if_unset (dc.atomics m) (flat f m e'))).each
        dg
