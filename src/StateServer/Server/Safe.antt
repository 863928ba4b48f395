-- ===== src/StateServer/Server/Safe.antt =====
-- What src/stateserver/state_server.cpp does to its objects, step by step.
use ardos.Prelude.{ℕ, Bool, true, false, if◌then◌else◌}
use ardos.Prelude.Action.{
  Action, Result, ok, err, overflow, eof, invalid, stuck, pure, ◌>>=◌, continue, catch_eof,
  caught_eof,
}
use ardos.Net.Datagram.{Datagram}
use ardos.Net.DatagramIterator.{DatagramIterator, get_uint64}
use ardos.StateServer.Server.{
  Objects, StateServer, Work, receiving, current, publish_built, handle_delete_ai,
}
use ardos.StateServer.Server.Identifiers.{IsOrderly, IsOrderly-refl, IsOrderly-trans}

-- What the server does is orderly, also when it throws.
pub record IsSafe {ℓ} {A : Type ℓ} (m : Action Work A) : Type 0 where
  pub kept : (w : Work) → IsOrderly w.server.dist_objs (m w).1.server.dist_objs

pub IsSafe-pure {ℓ} : {A : Type ℓ} (a : A) → IsSafe (pure {S = Work} a)
IsSafe-pure a = record { kept = λ w. IsOrderly-refl w.server.dist_objs }

pub IsSafe-receiving {ℓ} : {A : Type ℓ} (m : Action DatagramIterator A) → IsSafe (receiving m)
unfolding receiving
IsSafe-receiving m = record { kept = λ w. IsOrderly-refl w.server.dist_objs }

-- Behind a look at the server.
pub IsSafe-current {ℓ} :
    {A : Type ℓ} (f : StateServer → Action Work A)
    → ((w : Work) → IsOrderly w.server.dist_objs (f w.server w).1.server.dist_objs)
    → IsSafe (current >>= f)
unfolding current
IsSafe-current f kf = record { kept = kf }

IsSafe-continue {ℓ κ} :
    {A : Type ℓ} {B : Type κ} (os : Objects) (r : Result A × Work) (f : A → Action Work B)
    → IsOrderly os r.1.server.dist_objs
    → ((a : A) → IsSafe (f a))
    → IsOrderly os (continue r f).1.server.dist_objs
IsSafe-continue os (ok a, w) f p kf = IsOrderly-trans p ((kf a).kept w)
IsSafe-continue os (err e, w) f p kf = p

infixl 5 ◌then_safe◌
pub ◌then_safe◌ {ℓ κ} :
    {A : Type ℓ} {B : Type κ} {m : Action Work A} {f : A → Action Work B}
    → IsSafe m
    → ((a : A) → IsSafe (f a))
    → IsSafe (m >>= f)
◌then_safe◌ {m = m} {f = f} km kf = record {
  kept = λ w. IsSafe-continue w.server.dist_objs (m w) f (km.kept w) kf;
}

pub IsSafe-if {ℓ} :
    {A : Type ℓ} (test : Bool) {m n : Action Work A}
    → IsSafe m
    → IsSafe n
    → IsSafe (if test then m else n)
IsSafe-if true km kn = km
IsSafe-if false km kn = kn

caught_safe {ℓ} :
    {A : Type ℓ} (os : Objects) (r : Result A × Work)
    → IsOrderly os r.1.server.dist_objs
    → IsOrderly os (caught_eof r).1.server.dist_objs
caught_safe os (ok a, w) p = p
caught_safe os (err overflow, w) p = p
caught_safe os (err eof, w) p = p
caught_safe os (err invalid, w) p = p
caught_safe os (err stuck, w) p = p

pub IsSafe-catch_eof {ℓ} : {A : Type ℓ} {m : Action Work A} → IsSafe m → IsSafe (catch_eof m)
IsSafe-catch_eof {m = m} km = record {
  kept = λ w. caught_safe w.server.dist_objs (m w) (km.kept w);
}

publish_built-IsOrderly :
    (r : Result (Unit {0}) × Datagram) (w : Work)
    → IsOrderly w.server.dist_objs (publish_built r w).1.server.dist_objs
publish_built-IsOrderly (ok u, dg) w = IsOrderly-refl w.server.dist_objs
publish_built-IsOrderly (err e, dg) w = IsOrderly-refl w.server.dist_objs

pub handle_delete_ai-IsSafe : (sender : ℕ) → IsSafe (handle_delete_ai sender)
unfolding handle_delete_ai
handle_delete_ai-IsSafe sender =
    IsSafe-receiving get_uint64 then_safe λ ai. IsSafe-current _ λ w. publish_built-IsOrderly _ w
