-- ===== src/StateServer/DistributedObject/Keeps/Moved.antt =====
-- A move to another parent in src/stateserver/distributed_object.cpp, in two parts: the calls on the
-- channels of the parents with the change of the location, and what comes behind.
use ardos.Prelude.{
  ℕ, ◌≡◌, refl, [], ◌∷◌, ◌++◌, append-nil, ◌==◌, Bool-cases, inl, inr, if◌then◌else◌,
}
use ardos.Prelude.Action.{Action, pure, ◌>>=◌, ◌>>◌}
use ardos.StateServer.Messages.{parent_to_children}
use ardos.StateServer.DistributedObject.{Call, unsubscribed, self, note, change}
use ardos.StateServer.DistributedObject.Location.{ask_ai, leave_parent, join_parent, relocate}
use ardos.StateServer.DistributedObject.Keeps.{left, joined}

-- The object and its log after the first part of a move to another parent.
abbrev pub moved : ℕ → ℕ → Call → Call
moved parent zone c = record c {
  object = relocate parent zone c.object;
  log = (c.log ++ left c.object.parent_id) ++ joined parent;
}

-- A part of a join behind the call of SubscribeChannel.
abbrev pub after_join : ℕ → Action Call (Unit {0})
after_join parent = self >>= λ o.
    if parent == 0
    then (if o.ai_explicitly_set then pure tt else change λ o. record o { ai_channel = 0 })
    else (if o.ai_explicitly_set then pure tt else ask_ai)

pub move-eq :
    (parent zone : ℕ) (rest : Action Call (Unit {0})) (c : Call)
    → (leave_parent c.object.parent_id
          >> (change (relocate parent zone) >> (join_parent parent >> rest)))
        c
      ≡ (after_join parent >> rest) (moved parent zone c)
unfolding leave_parent join_parent self note change
move-eq parent zone rest c = elim (Bool-cases (c.object.parent_id == 0)) [
  | inl top ↦ elim (Bool-cases (parent == 0)) [
    | inl none ↦ rw (top, none, append-nil c.log, append-nil c.log) refl
    | inr some ↦ rw (top, some, append-nil c.log) refl
  ]
  | inr under ↦ elim (Bool-cases (parent == 0)) [
    | inl none ↦
        rw
          (
            under,
            none,
            append-nil (c.log ++ unsubscribed (parent_to_children c.object.parent_id) ∷ []),
          )
          refl
    | inr some ↦ rw (under, some) refl
  ]
]
