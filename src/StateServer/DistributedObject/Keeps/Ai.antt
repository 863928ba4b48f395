-- ===== src/StateServer/DistributedObject/Keeps/Ai.antt =====
-- What the cases for the AI, the owner and the class in src/stateserver/distributed_object.cpp keep.
use ardos.Prelude.{ℕ, Bool, true, false, not, List, ◌==◌}
use ardos.Dc.{Dc}
use ardos.Net.DatagramIterator.{get_uint32, get_uint64}
use ardos.StateServer.DistributedObject.{DistributedObject, Effect}
use ardos.StateServer.DistributedObject.Keeps.{
  Stable, Keeps, Keeps-pure, Keeps-self, ◌⨾◌, Keeps-if, Keeps-change, Keeps-publish, Keeps-from_dgi,
}
use ardos.StateServer.DistributedObject.Ai.{
  change_ai, handle_ai_change, handle_changing_ai, handle_set_ai, handle_get_ai_resp,
  handle_get_class, change_owner, handle_set_owner, handle_get_ai,
}
use ardos.StateServer.DistributedObject.Keeps.Entries.{send_ai_entry-Keeps, send_owner_entry-Keeps}

module _ (dc : Dc) (P : DistributedObject → List Effect → Type 0) (st : Stable dc P) where
  change_ai-Keeps :
      (o : DistributedObject) (ai sender : ℕ) (explicit : Bool)
      → Keeps P (change_ai dc o ai sender explicit)
  unfolding change_ai
  change_ai-Keeps o ai sender explicit = Keeps-if (ai == o.ai_channel) (Keeps-pure tt) (
      Keeps-change _ (λ o l p. st.takes_ai ai explicit p) ⨾ λ _. Keeps-publish st.quiet _ ⨾ λ _.
      Keeps-if (ai == 0) (Keeps-pure tt) (send_ai_entry-Keeps dc P st.quiet ai))

  handle_ai_change-Keeps :
      (ai sender : ℕ) (explicit : Bool) → Keeps P (handle_ai_change dc ai sender explicit)
  unfolding handle_ai_change
  handle_ai_change-Keeps ai sender explicit = Keeps-self ⨾ λ o. change_ai-Keeps o ai sender explicit

  pub handle_changing_ai-Keeps : (sender : ℕ) → Keeps P (handle_changing_ai dc sender)
  unfolding handle_changing_ai
  handle_changing_ai-Keeps sender = Keeps-from_dgi get_uint32 ⨾ λ parent.
      Keeps-from_dgi get_uint64 ⨾ λ ai. Keeps-self ⨾ λ o.
      Keeps-if (not (parent == o.parent_id)) (Keeps-pure tt)
        (Keeps-if o.ai_explicitly_set (Keeps-pure tt) (handle_ai_change-Keeps ai sender false))

  pub handle_set_ai-Keeps : (sender : ℕ) → Keeps P (handle_set_ai dc sender)
  unfolding handle_set_ai
  handle_set_ai-Keeps sender =
      Keeps-from_dgi get_uint64 ⨾ λ ai. handle_ai_change-Keeps ai sender true

  pub handle_get_ai_resp-Keeps : (sender : ℕ) → Keeps P (handle_get_ai_resp dc sender)
  unfolding handle_get_ai_resp
  handle_get_ai_resp-Keeps sender = Keeps-from_dgi get_uint32 ⨾ λ context.
      Keeps-from_dgi get_uint32 ⨾ λ parent. Keeps-self ⨾ λ o.
      Keeps-if (not (parent == o.parent_id)) (Keeps-pure tt) (
        Keeps-from_dgi get_uint64 ⨾ λ ai.
        Keeps-if o.ai_explicitly_set (Keeps-pure tt) (handle_ai_change-Keeps ai sender false))

  pub handle_get_class-Keeps : (sender : ℕ) → Keeps P (handle_get_class dc sender)
  unfolding handle_get_class
  handle_get_class-Keeps sender =
      Keeps-self ⨾ λ o. Keeps-from_dgi get_uint32 ⨾ λ context. Keeps-publish st.quiet _

  change_owner-Keeps :
      (o : DistributedObject) (owner sender : ℕ) → Keeps P (change_owner dc o owner sender)
  unfolding change_owner
  change_owner-Keeps o owner sender = Keeps-if (owner == o.owner_channel) (Keeps-pure tt) (
      Keeps-if (o.owner_channel == 0) (Keeps-pure tt) (Keeps-publish st.quiet _) ⨾ λ _.
      Keeps-change _ (λ o l p. st.takes_owner owner p) ⨾ λ _.
      Keeps-if (owner == 0) (Keeps-pure tt) (send_owner_entry-Keeps dc P st.quiet owner))

  pub handle_set_owner-Keeps : (sender : ℕ) → Keeps P (handle_set_owner dc sender)
  unfolding handle_set_owner
  handle_set_owner-Keeps sender =
      Keeps-from_dgi get_uint64 ⨾ λ owner. Keeps-self ⨾ λ o. change_owner-Keeps o owner sender

  pub handle_get_ai-Keeps : (sender : ℕ) → Keeps P (handle_get_ai sender)
  unfolding handle_get_ai
  handle_get_ai-Keeps sender =
      Keeps-self ⨾ λ o. Keeps-from_dgi get_uint32 ⨾ λ context. Keeps-publish st.quiet _
