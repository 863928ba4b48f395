-- ===== src/StateServer/DistributedObject/Keeps.antt =====
-- What every case of HandleDatagram in src/stateserver/distributed_object.cpp keeps. The cases change
-- an object in few ways: what each of these ways keeps, every datagram keeps.
pub mod Entries
pub mod Moved
pub mod Fields
pub mod Location
pub mod Ai
pub mod Children
pub mod Life
pub mod Handle
use ardos.Prelude.{
  ℕ, ◌+◌, ◌%◌, ◌^◌, ◌≡◌, ◌≢◌, Bool, true, false, List, [], ◌∷◌, ◌++◌, ◌==◌, if◌then◌else◌,
}
use ardos.Prelude.Action.{
  Action, Result, ok, err, overflow, eof, invalid, stuck, pure, catch_eof, caught_eof, ◌>>=◌, ◌>>◌,
  continue,
}
use ardos.Dc.{Dc}
use ardos.Net.Datagram.{Datagram, empty}
use ardos.Net.DatagramIterator.{DatagramIterator}
use ardos.StateServer.Messages.{parent_to_children}
use ardos.StateServer.FieldMap.{touch}
use ardos.StateServer.ZoneObjects.{touch_zone}
use ardos.StateServer.DistributedObject.{
  DistributedObject, Effect, published, subscribed, unsubscribed, removed, stopped, Call, self,
  from_dgi, change, note, filled, fill, publish,
}
use ardos.StateServer.DistributedObject.Fields.{save_field}
use ardos.StateServer.DistributedObject.Location.{relocate, acknowledge}
use ardos.StateServer.DistributedObject.Ai.{take_ai}
use ardos.StateServer.DistributedObject.Children.{enter_zone, leave_zone}

-- The calls on the channels of the parents, when an object goes from one to another.
abbrev pub left : ℕ → List Effect
left parent = if parent == 0 then [] else unsubscribed (parent_to_children parent) ∷ []

abbrev pub joined : ℕ → List Effect
joined parent = if parent == 0 then [] else subscribed (parent_to_children parent) ∷ []

-- A condition on an object and its log that publishing and reading required fields keep.
pub record Quiet (P : DistributedObject → List Effect → Type 0) : Type 0 where
  pub sends :
      {o : DistributedObject} {l : List Effect}
      → (dg : Datagram) → P o l
      → P o (l ++ published dg ∷ [])
  pub touches :
      {o : DistributedObject} {l : List Effect}
      → (field : ℕ) → P o l
      → P (record o { required_fields = touch field o.required_fields }) l

-- One that every way of changing them keeps.
pub record Stable (dc : Dc) (P : DistributedObject → List Effect → Type 0) : Type 0 where
  pub quiet : Quiet P
  pub saves :
      {o : DistributedObject} {l : List Effect}
      → (field : ℕ) (bytes : List ℕ) → P o l
      → P (save_field dc field bytes o) l
  pub enters :
      {o : DistributedObject} {l : List Effect}
      → (zone child : ℕ) → P o l
      → P (enter_zone zone child o) l
  pub leaves :
      {o : DistributedObject} {l : List Effect}
      → (zone child : ℕ) → P o l
      → P (leave_zone zone child o) l
  pub counts :
      {o : DistributedObject} {l : List Effect}
      → (zone : ℕ) → P o l
      → P (record o { zone_objects = touch_zone zone o.zone_objects }) l
  pub takes_ai :
      {o : DistributedObject} {l : List Effect}
      → (ai : ℕ) (explicit : Bool) → P o l
      → P (take_ai ai explicit o) l
  pub loses_ai :
      {o : DistributedObject} {l : List Effect} → P o l → P (record o { ai_channel = 0 }) l
  pub takes_owner :
      {o : DistributedObject} {l : List Effect}
      → (owner : ℕ) → P o l
      → P (record o { owner_channel = owner }) l
  pub asks :
      {o : DistributedObject} {l : List Effect}
      → P o l
      → P (record o { next_context = (o.next_context + 1) % 2 ^ 32 }) l
  pub acknowledges :
      {o : DistributedObject} {l : List Effect}
      → (parent zone : ℕ) → P o l
      → P (acknowledge parent zone o) l
  pub unsynchronizes :
      {o : DistributedObject} {l : List Effect}
      → P o l
      → P (record o { parent_synchronized = false }) l
  -- A move to another parent, which is not the object.
  pub moves :
      {o : DistributedObject} {l : List Effect}
      → (parent zone : ℕ) → (parent == o.do_id) ≡ false
      → (parent == o.parent_id) ≡ false
      → P o l
      → P (relocate parent zone o) ((l ++ left o.parent_id) ++ joined parent)
  -- A move to another zone under the same parent.
  pub shifts :
      {o : DistributedObject} {l : List Effect}
      → (parent zone : ℕ) → (parent == o.parent_id) ≡ true
      → P o l
      → P (relocate parent zone o) l
  -- The object only removes itself.
  pub id : ℕ
  pub same_id : {o : DistributedObject} {l : List Effect} → P o l → o.do_id ≡ id
  pub removes : {o : DistributedObject} {l : List Effect} → P o l → P o (l ++ removed id ∷ [])
  pub ends : {o : DistributedObject} {l : List Effect} → P o l → P o (l ++ stopped ∷ [])

-- What an action keeps, also when it throws.
pub record Keeps {ℓ} (P : DistributedObject → List Effect → Type 0) {A : Type ℓ} (m : Action Call A)
    : Type 0 where
  pub kept : (c : Call) → P c.object c.log → P (m c).1.object (m c).1.log

filled_still :
    (P : DistributedObject → List Effect → Type 0) (c : Call) (r : Result (Unit {0}) × Datagram)
    → P c.object c.log
    → P (filled r c).1.object (filled r c).1.log
filled_still P c (ok u, dg) p = p
filled_still P c (err e, dg) p = p

caught_still {ℓ} :
    (P : DistributedObject → List Effect → Type 0) {A : Type ℓ} (r : Result A × Call)
    → P r.1.object r.1.log
    → P (caught_eof r).1.object (caught_eof r).1.log
caught_still P (ok a, c) p = p
caught_still P (err overflow, c) p = p
caught_still P (err eof, c) p = p
caught_still P (err invalid, c) p = p
caught_still P (err stuck, c) p = p

module _ {P : DistributedObject → List Effect → Type 0} where
  pub Keeps-pure {ℓ} : {A : Type ℓ} (a : A) → Keeps P (pure {S = Call} a)
  Keeps-pure a = record { kept = λ c p. p }

  pub Keeps-self : Keeps P self
  unfolding self
  Keeps-self = record { kept = λ c p. p }

  pub Keeps-from_dgi {ℓ} : {A : Type ℓ} (m : Action DatagramIterator A) → Keeps P (from_dgi m)
  unfolding from_dgi
  Keeps-from_dgi m = record { kept = λ c p. p }

  Keeps-continue {ℓ κ} :
      {A : Type ℓ} {B : Type κ} (r : Result A × Call) (f : A → Action Call B)
      → P r.1.object r.1.log
      → ((a : A) → Keeps P (f a))
      → P (continue r f).1.object (continue r f).1.log
  Keeps-continue (ok a, c) f p kf = (kf a).kept c p
  Keeps-continue (err e, c) f p kf = p

  infixl 5 ◌⨾◌
  pub ◌⨾◌ {ℓ κ} :
      {A : Type ℓ} {B : Type κ} {m : Action Call A} {f : A → Action Call B}
      → Keeps P m
      → ((a : A) → Keeps P (f a))
      → Keeps P (m >>= f)
  ◌⨾◌ {m = m} {f = f} km kf = record { kept = λ c p. Keeps-continue (m c) f (km.kept c p) kf }

  pub Keeps-if {ℓ} :
      {A : Type ℓ} (test : Bool) {m n : Action Call A}
      → Keeps P m
      → Keeps P n
      → Keeps P (if test then m else n)
  Keeps-if true km kn = km
  Keeps-if false km kn = kn

  pub Keeps-change :
      (f : DistributedObject → DistributedObject)
      → ((o : DistributedObject) (l : List Effect) → P o l → P (f o) l)
      → Keeps P (change f)
  unfolding change
  Keeps-change f h = record { kept = λ c p. h c.object c.log p }

  pub Keeps-note :
      (e : Effect)
      → ((o : DistributedObject) (l : List Effect) → P o l → P o (l ++ e ∷ []))
      → Keeps P (note e)
  unfolding note
  Keeps-note e h = record { kept = λ c p. h c.object c.log p }

  pub Keeps-fill : (m : Action Datagram (Unit {0})) (dg : Datagram) → Keeps P (fill m dg)
  unfolding fill
  Keeps-fill m dg = record { kept = λ c p. filled_still P c (m dg) p }

  pub Keeps-catch_eof {ℓ} : {A : Type ℓ} {m : Action Call A} → Keeps P m → Keeps P (catch_eof m)
  Keeps-catch_eof {m = m} km = record { kept = λ c p. caught_still P (m c) (km.kept c p) }

  module _ (q : Quiet P) where
    pub Keeps-send : (dg : Datagram) → Keeps P (note (published dg))
    Keeps-send dg = Keeps-note _ λ o l p. q.sends dg p

    pub Keeps-publish : (m : Action Datagram (Unit {0})) → Keeps P (publish m)
    unfolding publish
    Keeps-publish m = Keeps-fill m empty ⨾ λ dg. Keeps-send dg
