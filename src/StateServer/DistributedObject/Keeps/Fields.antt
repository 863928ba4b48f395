-- ===== src/StateServer/DistributedObject/Keeps/Fields.antt =====
-- What the cases for fields in src/stateserver/distributed_object.cpp keep.
use ardos.Prelude.{ℕ, zero, suc, Bool, true, false, not, Option, none, some, List, [], ◌∷◌, ◌==◌}
use ardos.Prelude.Action.{Result, ok, err, gets}
use ardos.Dc.{Dc}
use ardos.Net.Datagram.{Datagram, empty}
use ardos.Net.DatagramIterator.{get_uint16, get_uint32, unpack_field, seek, tell}
use ardos.StateServer.DistributedObject.{DistributedObject, Effect, Call}
use ardos.StateServer.DistributedObject.Keeps.{
  Stable, Keeps, Keeps-pure, Keeps-self, ◌⨾◌, Keeps-if, Keeps-fill, Keeps-change, Keeps-send,
  Keeps-publish, Keeps-from_dgi, Keeps-catch_eof,
}
use ardos.StateServer.FieldMap.{is_unset}
use ardos.StateServer.DistributedObject.Fields.{
  save_atomics, save_parts, store_update, update_field, handle_one_update, update_fields,
  handle_set_field, handle_set_fields, handle_get_all, handle_get_field, handle_get_fields, got,
  got_all, read_requested, insert_sorted, handle_one_get, get_requested,
}
use ardos.StateServer.DistributedObject.Keeps.Entries.{
  append_required_data-Keeps, append_other_data-Keeps,
}

module _ (dc : Dc) (P : DistributedObject → List Effect → Type 0) (st : Stable dc P) where
  save_atomics-Keeps : (atomics : List ℕ) → Keeps P (save_atomics dc atomics)
  unfolding save_atomics
  save_atomics-Keeps [] = Keeps-pure tt
  save_atomics-Keeps (atomic ∷ atomics) = Keeps-from_dgi (unpack_field dc atomic []) ⨾ λ bytes.
      Keeps-change _ (λ o l p. st.saves atomic bytes p) ⨾ λ _. save_atomics-Keeps atomics

  save_parts-Keeps :
      (molecular : Option ℕ) (field start : ℕ) (bytes : List ℕ)
      → Keeps P (save_parts dc molecular field start bytes)
  unfolding save_parts
  save_parts-Keeps none field start bytes = Keeps-change _ λ o l p. st.saves field bytes p
  save_parts-Keeps (some molecular) field start bytes =
      Keeps-from_dgi (seek start) ⨾ λ _. save_atomics-Keeps (dc.atomics molecular)

  store_update-Keeps :
      (sender field_id field start : ℕ) (bytes : Option (List ℕ))
      → Keeps P (store_update dc sender field_id field start bytes)
  unfolding store_update
  store_update-Keeps sender field_id field start none = Keeps-pure false
  store_update-Keeps sender field_id field start (some bytes) =
      save_parts-Keeps (dc.as_molecular_field field) field start bytes ⨾ λ _.
      Keeps-self ⨾ λ o. Keeps-publish st.quiet _ ⨾ λ _. Keeps-pure true

  update_field-Keeps :
      (sender field_id : ℕ) (field : Option ℕ) → Keeps P (update_field dc sender field_id field)
  unfolding update_field
  update_field-Keeps sender field_id none = Keeps-pure false
  update_field-Keeps sender field_id (some field) = Keeps-from_dgi (gets tell) ⨾ λ start.
      Keeps-catch_eof (Keeps-from_dgi (unpack_field dc field [])) ⨾ λ bytes.
      store_update-Keeps sender field_id field start bytes

  handle_one_update-Keeps : (sender : ℕ) → Keeps P (handle_one_update dc sender)
  unfolding handle_one_update
  handle_one_update-Keeps sender = Keeps-from_dgi get_uint16 ⨾ λ field_id.
      Keeps-self ⨾ λ o. update_field-Keeps sender field_id (dc.field_by_index o.dclass field_id)

  update_fields-Keeps : (n sender : ℕ) → Keeps P (update_fields dc n sender)
  unfolding update_fields
  update_fields-Keeps zero sender = Keeps-pure tt
  update_fields-Keeps (suc n) sender = handle_one_update-Keeps sender ⨾ λ good.
      Keeps-if good (update_fields-Keeps n sender) (Keeps-pure tt)

  pub handle_set_field-Keeps : (sender : ℕ) → Keeps P (handle_set_field dc sender)
  unfolding handle_set_field
  handle_set_field-Keeps sender = Keeps-from_dgi get_uint32 ⨾ λ target. Keeps-self ⨾ λ o.
      Keeps-if (not (o.do_id == target)) (Keeps-pure tt)
        (handle_one_update-Keeps sender ⨾ λ _. Keeps-pure tt)

  pub handle_set_fields-Keeps : (sender : ℕ) → Keeps P (handle_set_fields dc sender)
  unfolding handle_set_fields
  handle_set_fields-Keeps sender = Keeps-from_dgi get_uint32 ⨾ λ target. Keeps-self ⨾ λ o.
      Keeps-if (not (o.do_id == target)) (Keeps-pure tt)
        (Keeps-from_dgi get_uint16 ⨾ λ n. update_fields-Keeps n sender)

  got_still :
      (r : Result Bool × Datagram) (c : Call)
      → P c.object c.log
      → P (got dc r c).1.object (got dc r c).1.log
  unfolding got
  got_still (ok b, dg) c p = p
  got_still (err e, dg) c p = p

  got-Keeps : (r : Result Bool × Datagram) → Keeps P (got dc r)
  got-Keeps r = record { kept = got_still r }

  got_all_still :
      (r : Result (Bool × ℕ) × Datagram) (c : Call)
      → P c.object c.log
      → P (got_all dc r c).1.object (got_all dc r c).1.log
  unfolding got_all
  got_all_still (ok (b, n), dg) c p = p
  got_all_still (err e, dg) c p = p

  got_all-Keeps : (r : Result (Bool × ℕ) × Datagram) → Keeps P (got_all dc r)
  got_all-Keeps r = record { kept = got_all_still r }

  pub handle_get_all-Keeps : (sender : ℕ) → Keeps P (handle_get_all dc sender)
  unfolding handle_get_all
  handle_get_all-Keeps sender = Keeps-from_dgi get_uint32 ⨾ λ context.
      Keeps-from_dgi get_uint32 ⨾ λ target. Keeps-self ⨾ λ o.
      Keeps-if (not (target == o.do_id)) (Keeps-pure tt) (
        Keeps-fill _ empty ⨾ λ dg. append_required_data-Keeps dc P st.quiet false false dg ⨾ λ dg'.
        Keeps-if (is_unset o.ram_fields) (Keeps-pure dg')
          (append_other_data-Keeps dc P st.quiet false false dg')
        ⨾ λ dg''. Keeps-send st.quiet dg'')

  pub handle_get_field-Keeps : (sender : ℕ) → Keeps P (handle_get_field dc sender)
  unfolding handle_get_field
  handle_get_field-Keeps sender = Keeps-from_dgi get_uint32 ⨾ λ context.
      Keeps-from_dgi get_uint32 ⨾ λ target. Keeps-self ⨾ λ o.
      Keeps-if (not (target == o.do_id)) (Keeps-pure tt) (
        Keeps-from_dgi get_uint16 ⨾ λ field_id.
        got-Keeps (handle_one_get dc o field_id false false empty) ⨾ λ raw.
        Keeps-publish st.quiet _)

  read_requested-Keeps : (n : ℕ) (requested : List ℕ) → Keeps P (read_requested dc n requested)
  unfolding read_requested
  read_requested-Keeps zero requested = Keeps-pure requested
  read_requested-Keeps (suc n) requested = Keeps-from_dgi get_uint16 ⨾ λ field_id.
      read_requested-Keeps n (insert_sorted field_id requested)

  pub handle_get_fields-Keeps : (sender : ℕ) → Keeps P (handle_get_fields dc sender)
  unfolding handle_get_fields
  handle_get_fields-Keeps sender = Keeps-from_dgi get_uint32 ⨾ λ context.
      Keeps-from_dgi get_uint32 ⨾ λ target. Keeps-self ⨾ λ o.
      Keeps-if (not (target == o.do_id)) (Keeps-pure tt) (
        Keeps-from_dgi get_uint16 ⨾ λ field_count.
        read_requested-Keeps field_count [] ⨾ λ requested.
        got_all-Keeps (get_requested dc o requested 0 empty) ⨾ λ raw. Keeps-publish st.quiet _)
