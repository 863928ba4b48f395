-- ===== src/StateServer/DistributedObject/Keeps/Life.antt =====
-- What the end of an object and its Init in src/stateserver/distributed_object.cpp keep.
use ardos.Prelude.{ℕ, ◌≡◌, sym, subst, Bool, true, false, not, ◌&&◌, List, [], ◌∷◌, ◌++◌, ◌==◌}
use ardos.Prelude.Action.{Action, ◌>>=◌}
use ardos.Dc.{Dc}
use ardos.Net.DatagramIterator.{get_uint32, get_uint64}
use ardos.StateServer.DistributedObject.{DistributedObject, Effect, removed, Call, self}
use ardos.StateServer.DistributedObject.Keeps.{
  Stable, Keeps, Keeps-pure, Keeps-self, ◌⨾◌, Keeps-if, Keeps-note, Keeps-publish, Keeps-from_dgi,
}
use ardos.StateServer.ZoneObjects.{has_none}
use ardos.StateServer.DistributedObject.Life.{
  delete_children, notify_parent, annihilate, handle_delete_ai_objects, handle_delete_ram,
  handle_delete_children, init_object,
}
use ardos.StateServer.DistributedObject.Keeps.Location.{handle_location_change-Keeps}
use ardos.StateServer.DistributedObject.Keeps.Children.{wake_children-Keeps}

module _ (dc : Dc) (P : DistributedObject → List Effect → Type 0) (st : Stable dc P) where
  delete_children-Keeps : (sender : ℕ) → Keeps P (delete_children sender)
  unfolding delete_children
  delete_children-Keeps sender = Keeps-self ⨾ λ o.
      Keeps-if (has_none o.zone_objects) (Keeps-pure tt) (Keeps-publish st.quiet _)

  notify_parent-Keeps : (o : DistributedObject) (sender : ℕ) → Keeps P (notify_parent o sender)
  unfolding notify_parent
  notify_parent-Keeps o sender = Keeps-publish st.quiet _

  -- Behind a look at the object, its identifier is known.
  Keeps-known_id {ℓ} :
      {A : Type ℓ} {f : DistributedObject → Action Call A}
      → ((o : DistributedObject) → o.do_id ≡ st.id → Keeps P (f o))
      → Keeps P (self >>= f)
  unfolding self
  Keeps-known_id kf = record { kept = λ c p. (kf c.object (st.same_id p)).kept c p }

  annihilate-Keeps : (sender : ℕ) (notify : Bool) → Keeps P (annihilate sender notify)
  unfolding annihilate
  annihilate-Keeps sender notify = Keeps-known_id λ o same.
      Keeps-if (not (o.parent_id == 0) && notify) (notify_parent-Keeps o sender) (Keeps-pure tt)
      ⨾ λ _. Keeps-publish st.quiet _ ⨾ λ _. delete_children-Keeps sender ⨾ λ _.
          Keeps-note _ (λ o' l p. subst (λ n. P o' (l ++ removed n ∷ [])) (sym same) (st.removes p))
          ⨾ λ _. Keeps-note _ λ o' l p. st.ends p

  pub handle_delete_ai_objects-Keeps : (sender : ℕ) → Keeps P (handle_delete_ai_objects sender)
  unfolding handle_delete_ai_objects
  handle_delete_ai_objects-Keeps sender = Keeps-from_dgi get_uint64 ⨾ λ channel. Keeps-self ⨾ λ o.
      Keeps-if (not (o.ai_channel == channel)) (Keeps-pure tt) (annihilate-Keeps sender true)

  pub handle_delete_ram-Keeps : (sender : ℕ) → Keeps P (handle_delete_ram sender)
  unfolding handle_delete_ram
  handle_delete_ram-Keeps sender = Keeps-from_dgi get_uint32 ⨾ λ target. Keeps-self ⨾ λ o.
      Keeps-if (not (o.do_id == target)) (Keeps-pure tt) (annihilate-Keeps sender true)

  pub handle_delete_children-Keeps : (sender : ℕ) → Keeps P (handle_delete_children sender)
  unfolding handle_delete_children
  handle_delete_children-Keeps sender = Keeps-from_dgi get_uint32 ⨾ λ target. Keeps-self ⨾ λ o.
      Keeps-if (target == o.do_id) (delete_children-Keeps sender)
        (Keeps-if (target == o.parent_id) (annihilate-Keeps sender false) (Keeps-pure tt))

  pub init_object-Keeps : Keeps P (init_object dc)
  unfolding init_object
  init_object-Keeps = Keeps-self ⨾ λ o.
      handle_location_change-Keeps dc P st o.pending_parent o.pending_zone o.pending_sender ⨾ λ _.
      wake_children-Keeps dc P st
