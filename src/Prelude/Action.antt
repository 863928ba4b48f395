-- ===== src/Prelude/Action.antt =====
-- Member functions that change an object and may throw. What was written before a throw stays
-- written, so the state comes back beside the fault too.
use mathlib.Core.Option.{Option, none, some}

-- `overflow` is DatagramOverflow and `eof` is DatagramIteratorEOF; `invalid` is
-- std::invalid_argument or std::out_of_range. `stuck` is no exception of the
-- program: it marks a recursion whose fuel ran out.
pub data Fault : Type 0 where
  overflow eof invalid stuck : Fault

pub data Result {ℓ} (A : Type ℓ) : Type ℓ where
  ok : A → Result A
  err : Fault → Result A

abbrev pub Action {ℓ κ} : Type ℓ → Type κ → Type (ℓ ⊔ κ)
Action S A = S → Result A × S

abbrev pub pure {ℓ κ} : {S : Type ℓ} {A : Type κ} → A → Action S A
pure a s = (ok a, s)

abbrev pub raise {ℓ κ} : {S : Type ℓ} {A : Type κ} → Fault → Action S A
raise e s = (err e, s)

abbrev pub modify {ℓ} : {S : Type ℓ} → (S → S) → Action S (Unit {0})
modify f s = (ok tt, f s)

abbrev pub gets {ℓ κ} : {S : Type ℓ} {A : Type κ} → (S → A) → Action S A
gets f s = (ok (f s), s)

abbrev pub continue {ℓ κ μ} :
    {S : Type ℓ} {A : Type κ} {B : Type μ} → Result A × S → (A → Action S B) → Result B × S
continue (ok a, s) f = f a s
continue (err e, s) f = (err e, s)

infixl 5 ◌>>=◌ ◌>>◌
abbrev pub ◌>>=◌ {ℓ κ μ} :
    {S : Type ℓ} {A : Type κ} {B : Type μ} → Action S A → (A → Action S B) → Action S B
◌>>=◌ m f s = continue (m s) f

abbrev pub ◌>>◌ {ℓ κ} : {S : Type ℓ} {B : Type κ} → Action S (Unit {0}) → Action S B → Action S B
m >> k = m >>= λ _. k

-- A try block whose handler is for DatagramIteratorEOF alone.
abbrev pub caught_eof {ℓ κ} : {S : Type ℓ} {A : Type κ} → Result A × S → Result (Option A) × S
caught_eof (ok a, s) = (ok (some a), s)
caught_eof (err overflow, s) = (err overflow, s)
caught_eof (err eof, s) = (ok none, s)
caught_eof (err invalid, s) = (err invalid, s)
caught_eof (err stuck, s) = (err stuck, s)

abbrev pub catch_eof {ℓ κ} : {S : Type ℓ} {A : Type κ} → Action S A → Action S (Option A)
catch_eof m s = caught_eof (m s)
