-- ===== src/StateServer/DistributedObject/History/Children.antt =====
-- The children that an object of src/stateserver/distributed_object.cpp knows, after any history.
use ardos.Prelude.{ℕ, ◌≡◌, refl, List}
use ardos.Dc.{Dc}
use ardos.Net.Datagram.{Datagram}
use ardos.StateServer.FieldMap.{FieldMap}
use ardos.StateServer.ZoneObjects.Index.{IsIndex, enter-IsIndex, touch-IsIndex, leave-IsIndex}
use ardos.StateServer.DistributedObject.{DistributedObject, Effect}
use ardos.StateServer.DistributedObject.Life.{new_object}
use ardos.StateServer.DistributedObject.Keeps.{Stable}
use ardos.StateServer.DistributedObject.History.{
  serve, born, serve-Stable, born-Stable, save_field_ind, acknowledge_ind,
}

module _ (dc : Dc) (do_id : ℕ) where
  abbrev HasIndex : DistributedObject → List Effect → Type 0
  HasIndex o l = (o.do_id ≡ do_id) × IsIndex o.zone_objects

  HasIndex-Stable : Stable dc HasIndex
  HasIndex-Stable = record {
    quiet = record { sends = λ dg p. p; touches = λ field p. p };
    saves = λ {o} field bytes p.
        save_field_ind dc (λ (o : DistributedObject). (o.do_id ≡ do_id) × IsIndex o.zone_objects)
          field bytes o (λ fs. p) (λ fs. p) p;
    enters = λ {o} zone child p. (p.0, enter-IsIndex zone child o.zone_objects p.1);
    leaves = λ {o} zone child p. (p.0, leave-IsIndex zone child o.zone_objects p.1);
    counts = λ {o} zone p. (p.0, touch-IsIndex zone o.zone_objects p.1);
    takes_ai = λ ai explicit p. p;
    loses_ai = λ p. p;
    takes_owner = λ owner p. p;
    asks = λ p. p;
    acknowledges = λ {o} parent zone p.
        acknowledge_ind (λ (o : DistributedObject). (o.do_id ≡ do_id) × IsIndex o.zone_objects)
          parent zone o p p;
    unsynchronizes = λ p. p;
    moves = λ parent zone not_self other p. p;
    shifts = λ parent zone same p. p;
    id = do_id;
    same_id = λ p. p.0;
    removes = λ p. p;
    ends = λ p. p;
  }

  -- What the theorem on CHANGING_LOCATION assumes of the map of children holds for every object.
  serve-born-IsIndex :
      (dclass : ℕ) (required ram : FieldMap) (parent zone sender : ℕ) (dg : Datagram)
      (dgs : List Datagram)
      → IsIndex
          (serve dc dgs (
            born dc
              (new_object dc do_id dclass required ram parent zone sender)
              dg)).object.zone_objects
  unfolding new_object
  serve-born-IsIndex dclass required ram parent zone sender dg dgs =
      let o = new_object dc do_id dclass required ram parent zone sender in
      (serve-Stable dc HasIndex HasIndex-Stable dgs (born dc o dg)
        (born-Stable dc HasIndex HasIndex-Stable o dg (refl, tt))).1
