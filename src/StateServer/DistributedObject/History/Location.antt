-- ===== src/StateServer/DistributedObject/History/Location.antt =====
-- Where an object of src/stateserver/distributed_object.cpp is and what it is subscribed to, after any
-- history.
use ardos.Prelude.{
  ℕ, ◌<◌, ◌^◌, ◌≡◌, refl, sym, Bool, true, false, not, ◌&&◌, ◌||◌, ◌⊎◌, inl, inr, List, [], ◌∷◌,
  ◌++◌, arith, ◌==◌, Bool-cases, subst, ==_iff,
}
use ardos.Prelude.Sets.{mem, insert, remove, mem-insert, mem-remove}
use ardos.Dc.{Dc}
use ardos.Net.Datagram.{Datagram}
use ardos.StateServer.Messages.{parent_to_children}
use ardos.StateServer.FieldMap.{FieldMap}
use ardos.StateServer.DistributedObject.{
  DistributedObject, Effect, published, subscribed, unsubscribed, removed, stopped,
}
use ardos.StateServer.DistributedObject.Life.{new_object}
use ardos.StateServer.DistributedObject.Keeps.{Stable, left, joined}
use ardos.StateServer.DistributedObject.History.{
  serve, born, serve-Stable, born-Stable, save_field_ind, acknowledge_ind,
}

-- The channels after a row of calls.
abbrev pub after : List Effect → List ℕ → List ℕ
after [] cs = cs
after (subscribed c ∷ es) cs = after es (insert c cs)
after (unsubscribed c ∷ es) cs = after es (remove c cs)
after (e ∷ es) cs = after es cs

abbrev pub has_stopped : List Effect → Bool
has_stopped [] = false
has_stopped (stopped ∷ es) = true
has_stopped (e ∷ es) = has_stopped es

after-append : (l m : List Effect) (cs : List ℕ) → after (l ++ m) cs ≡ after m (after l cs)
after-append [] m cs = refl
after-append (published dg ∷ es) m cs = after-append es m cs
after-append (subscribed c ∷ es) m cs = after-append es m (insert c cs)
after-append (unsubscribed c ∷ es) m cs = after-append es m (remove c cs)
after-append (removed d ∷ es) m cs = after-append es m cs
after-append (stopped ∷ es) m cs = after-append es m cs

has_stopped-append : (l m : List Effect) → has_stopped (l ++ m) ≡ has_stopped l || has_stopped m
has_stopped-append [] m = refl
has_stopped-append (published dg ∷ es) m = has_stopped-append es m
has_stopped-append (subscribed c ∷ es) m = has_stopped-append es m
has_stopped-append (unsubscribed c ∷ es) m = has_stopped-append es m
has_stopped-append (removed d ∷ es) m = has_stopped-append es m
has_stopped-append (stopped ∷ es) m = refl

-- The channels of an object: its own, and that of the children of its parent where there is one.
abbrev pub has_channel : ℕ → ℕ → ℕ → Bool
has_channel do_id parent c = (c == do_id) || (not (parent == 0) && (c == parent_to_children parent))

abbrev pub IsListening : ℕ → ℕ → List Effect → Type 0
IsListening do_id parent l =
    (has_stopped l ≡ true) ⊎ ((c : ℕ) → mem c (after l []) ≡ has_channel do_id parent c)

-- A call that is no subscription changes nothing.
IsListening-on :
    (do_id parent : ℕ) (l : List Effect) (e : Effect)
    → ((cs : List ℕ) → after (e ∷ []) cs ≡ cs)
    → IsListening do_id parent l
    → IsListening do_id parent (l ++ e ∷ [])
IsListening-on do_id parent l e same (inl shut) =
    inl (rw (has_stopped-append l (e ∷ []), shut) refl)
IsListening-on do_id parent l e same (inr h) =
    inr λ c. rw (after-append l (e ∷ []) [], same (after l [])) (h c)

mem-left :
    (do_id parent c : ℕ) (cs : List ℕ)
    → do_id < 2 ^ 32
    → mem c cs ≡ has_channel do_id parent c
    → mem c (after (left parent) cs) ≡ (c == do_id)
unfolding parent_to_children
mem-left do_id parent c cs small h = elim (Bool-cases (parent == 0)) [
  | inl e ↦ rw e (ground arith)
  | inr e ↦ rw (e, mem-remove c (parent_to_children parent) cs, h) (ground arith)
]

mem-joined :
    (do_id parent c : ℕ) (cs : List ℕ)
    → mem c cs ≡ (c == do_id)
    → mem c (after (joined parent) cs) ≡ has_channel do_id parent c
mem-joined do_id parent c cs h = elim (Bool-cases (parent == 0)) [
  | inl e ↦ rw e (ground arith)
  | inr e ↦ rw (e, mem-insert c (parent_to_children parent) cs, h) (ground arith)
]

IsListening-moved :
    (do_id old new : ℕ) (l : List Effect)
    → do_id < 2 ^ 32
    → IsListening do_id old l
    → IsListening do_id new ((l ++ left old) ++ joined new)
IsListening-moved do_id old new l small (inl shut) = inl (
    rw (has_stopped-append (l ++ left old) (joined new), has_stopped-append l (left old), shut)
      refl)
IsListening-moved do_id old new l small (inr h) = inr λ c.
    rw (after-append (l ++ left old) (joined new) [], after-append l (left old) [])
      (mem-joined do_id new c (after (left old) (after l []))
        (mem-left do_id old c (after l []) small (h c)))

module _ (dc : Dc) (do_id dclass : ℕ) (small : do_id < 2 ^ 32) where
  -- The identity and the class stay, the object is not its own parent, and it has its channels.
  abbrev IsPlaced : DistributedObject → List Effect → Type 0
  IsPlaced o l =
      (o.do_id ≡ do_id)
      × ((o.dclass ≡ dclass) × (((o.parent_id == do_id) ≡ false) × IsListening do_id o.parent_id l))

  IsPlaced-on :
      (o : DistributedObject) (l : List Effect) (e : Effect)
      → ((cs : List ℕ) → after (e ∷ []) cs ≡ cs)
      → IsPlaced o l
      → IsPlaced o (l ++ e ∷ [])
  IsPlaced-on o l e same (i, (k, (u, h))) =
      (i, (k, (u, IsListening-on do_id o.parent_id l e same h)))

  IsPlaced-Stable : Stable dc IsPlaced
  IsPlaced-Stable = record {
    quiet = record {
      sends = λ {o} {l} dg p. IsPlaced-on o l (published dg) (λ cs. refl) p;
      touches = λ field p. p;
    };
    saves = λ {o} {l} field bytes p.
        save_field_ind dc (λ (o : DistributedObject). IsPlaced o l) field bytes o (λ fs. p)
          (λ fs. p) p;
    enters = λ zone child p. p;
    leaves = λ zone child p. p;
    counts = λ zone p. p;
    takes_ai = λ ai explicit p. p;
    loses_ai = λ p. p;
    takes_owner = λ owner p. p;
    asks = λ p. p;
    acknowledges = λ {o} {l} parent zone p.
        acknowledge_ind (λ (o : DistributedObject). IsPlaced o l) parent zone o p p;
    unsynchronizes = λ p. p;
    moves = λ {o} {l} parent zone not_self other (i, (k, (u, h))). (
      i,
      (
        k,
        (
          subst (λ n. (parent == n) ≡ false) i not_self,
          IsListening-moved do_id o.parent_id parent l small h,
        ),
      ),
    );
    shifts = λ {o} {l} parent zone kept (i, (k, uh)). (
      i,
      (
        k,
        subst (λ n. ((n == do_id) ≡ false) × IsListening do_id n l)
            (sym ((==_iff parent o.parent_id).0 kept)) uh,
      ),
    );
    id = do_id;
    same_id = λ p. p.0;
    removes = λ {o} {l} p. IsPlaced-on o l (removed do_id) (λ cs. refl) p;
    ends = λ {o} {l} p. IsPlaced-on o l stopped (λ cs. refl) p;
  }

  -- A new object, of either constructor, with an identifier from 1 to 2^32 - 1, that went through Init
  -- is after any row of datagrams still of the same identifier and class, not its own parent, and has
  -- either shut down or subscribed to its own channel, to the channel of the children of its parent
  -- where it has one, and to no other.
  pub serve-born-IsPlaced :
      (required ram : FieldMap) (parent zone sender : ℕ) (dg : Datagram) (dgs : List Datagram)
      → 0 < do_id
      → let c =
          serve dc dgs (born dc (new_object dc do_id dclass required ram parent zone sender) dg) in
        (c.object.do_id ≡ do_id)
        × ((c.object.dclass ≡ dclass)
            × (((c.object.parent_id == do_id) ≡ false)
                × IsListening do_id c.object.parent_id c.log))
  unfolding new_object
  serve-born-IsPlaced required ram parent zone sender dg dgs positive =
      let o = new_object dc do_id dclass required ram parent zone sender in
      serve-Stable dc IsPlaced IsPlaced-Stable dgs (born dc o dg) (
        born-Stable dc IsPlaced IsPlaced-Stable o dg
          (refl, (refl, (ground arith, inr λ c. ground arith))))
