-- ===== src/StateServer/DistributedObject/History/Identity.antt =====
-- An object of src/stateserver/distributed_object.cpp keeps its identifier, and the one that it takes
-- out of the map of its server is itself.
use ardos.Prelude.{ℕ, ◌≡◌, refl, List, [], ◌∷◌, ◌++◌, ◌==◌, Bool-cases, inl, inr}
use ardos.Dc.{Dc}
use ardos.StateServer.DistributedObject.{
  DistributedObject, Effect, published, subscribed, unsubscribed, removed, stopped,
}
use ardos.StateServer.DistributedObject.Keeps.{Stable, left, joined}
use ardos.StateServer.DistributedObject.History.{save_field_ind, acknowledge_ind}

abbrev pub RemovesOnly : ℕ → List Effect → Type 0
RemovesOnly k [] = Unit {0}
RemovesOnly k (removed d ∷ es) = (d ≡ k) × RemovesOnly k es
RemovesOnly k (e ∷ es) = RemovesOnly k es

RemovesOnly-append :
    (k : ℕ) (l m : List Effect) → RemovesOnly k l → RemovesOnly k m → RemovesOnly k (l ++ m)
RemovesOnly-append k [] m p q = q
RemovesOnly-append k (published dg ∷ es) m p q = RemovesOnly-append k es m p q
RemovesOnly-append k (subscribed c ∷ es) m p q = RemovesOnly-append k es m p q
RemovesOnly-append k (unsubscribed c ∷ es) m p q = RemovesOnly-append k es m p q
RemovesOnly-append k (removed d ∷ es) m p q = (p.0, RemovesOnly-append k es m p.1 q)
RemovesOnly-append k (stopped ∷ es) m p q = RemovesOnly-append k es m p q

RemovesOnly-left : (k parent : ℕ) → RemovesOnly k (left parent)
RemovesOnly-left k parent = elim (Bool-cases (parent == 0)) [ inl e ↦ rw e tt | inr e ↦ rw e tt ]

RemovesOnly-joined : (k parent : ℕ) → RemovesOnly k (joined parent)
RemovesOnly-joined k parent = elim (Bool-cases (parent == 0)) [ inl e ↦ rw e tt | inr e ↦ rw e tt ]

module _ (dc : Dc) (do_id : ℕ) where
  abbrev pub IsItself : DistributedObject → List Effect → Type 0
  IsItself o l = (o.do_id ≡ do_id) × RemovesOnly do_id l

  pub IsItself-Stable : Stable dc IsItself
  IsItself-Stable = record {
    quiet = record {
      sends = λ {o} {l} dg p. (p.0, RemovesOnly-append do_id l (published dg ∷ []) p.1 tt);
      touches = λ field p. p;
    };
    saves = λ {o} {l} field bytes p.
        save_field_ind dc (λ (o : DistributedObject). IsItself o l) field bytes o (λ fs. p)
          (λ fs. p) p;
    enters = λ zone child p. p;
    leaves = λ zone child p. p;
    counts = λ zone p. p;
    takes_ai = λ ai explicit p. p;
    loses_ai = λ p. p;
    takes_owner = λ owner p. p;
    asks = λ p. p;
    acknowledges = λ {o} {l} parent zone p.
        acknowledge_ind (λ (o : DistributedObject). IsItself o l) parent zone o p p;
    unsynchronizes = λ p. p;
    moves = λ {o} {l} parent zone not_self other p. (
      p.0,
      RemovesOnly-append do_id (l ++ left o.parent_id) (joined parent)
          (RemovesOnly-append do_id l (left o.parent_id) p.1 (RemovesOnly-left do_id o.parent_id))
          (RemovesOnly-joined do_id parent),
    );
    shifts = λ parent zone same p. p;
    id = do_id;
    same_id = λ p. p.0;
    removes = λ {o} {l} p. (p.0, RemovesOnly-append do_id l (removed do_id ∷ []) p.1 (refl, tt));
    ends = λ {o} {l} p. (p.0, RemovesOnly-append do_id l (stopped ∷ []) p.1 tt);
  }
