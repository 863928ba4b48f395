-- ===== src/MessageDirector/Subscriber/Channels.antt =====
-- The reference counts of the channels and the bindings at the broker.
use ardos.Prelude.{
  ℕ, suc, ◌+◌, ◌-◌, ◌%◌, ◌^◌, ◌≤◌, ◌<◌, ◌≡◌, inl, inr, refl, sym, ap, subst, ◌∙◌, Bool, true, false,
  not, List, [], ◌∷◌, ◌++◌, length, append-nil, arith, ◌==◌, if◌then◌else◌, if_ind, Bool-cases,
  Option, none, some,
}
use ardos.Prelude.Sets.{mem, remove, update, NoDup, mem-remove, length-remove, NoDup-remove}
use ardos.MessageDirector.Subscriber.{
  BrokerCall, bind_channel, unbind_channel, bind_bucket, unbind_bucket, Director, count_at,
  retain_from, take_channel, drop_channel, retain_channel, release_channel, subscribe_channel,
  unsubscribe_channel,
}

-- Whether the broker has a binding for the channel after the calls, when it had `was` before.
abbrev pub bound_after : ℕ → Bool → List BrokerCall → Bool
bound_after c was [] = was
bound_after c was (bind_channel k ∷ calls) = bound_after c (if c == k then true else was) calls
bound_after c was (unbind_channel k ∷ calls) = bound_after c (if c == k then false else was) calls
bound_after c was (bind_bucket _ ∷ calls) = bound_after c was calls
bound_after c was (unbind_bucket _ ∷ calls) = bound_after c was calls

pub bound_after-append :
    (c : ℕ) (xs : List BrokerCall) (was : Bool) (ys : List BrokerCall)
    → bound_after c was (xs ++ ys) ≡ bound_after c (bound_after c was xs) ys
bound_after-append c [] was ys = refl
bound_after-append c (bind_channel k ∷ xs) was ys = bound_after-append c xs _ ys
bound_after-append c (unbind_channel k ∷ xs) was ys = bound_after-append c xs _ ys
bound_after-append c (bind_bucket k ∷ xs) was ys = bound_after-append c xs was ys
bound_after-append c (unbind_bucket k ∷ xs) was ys = bound_after-append c xs was ys

abbrev pub is_empty : List ℕ → Bool
is_empty [] = true
is_empty (x ∷ xs) = false

-- The entry of a channel that the subscribers `hs` hold.
abbrev pub refcount : List ℕ → Option ℕ
refcount [] = none
refcount (h ∷ hs) = some (suc (length hs))

-- Of every channel: who holds it, counted once each, and bound just while someone does.
pub record IsCounted (n : ℕ) (d : Director) : Type 0 where
  pub holders : ℕ → List ℕ
  pub distinct : (c : ℕ) → NoDup (holders c)
  pub holds : (c s : ℕ) → mem s (holders c) ≡ mem c (d.locals s).local_channels
  pub counted : (c : ℕ) → d.global_channels c ≡ refcount (holders c)
  pub bound : (c : ℕ) → bound_after c false d.broker ≡ not (is_empty (holders c))
  pub few : (c : ℕ) → length (holders c) ≤ n

-- A step that changes the holders of one channel.
recount :
    (n n' : ℕ) (d d' : Director) (c : ℕ) (hs : List ℕ) (calls : List BrokerCall) (i : IsCounted n d)
    → NoDup hs
    → ((s : ℕ) → mem s hs ≡ mem c (d'.locals s).local_channels)
    → ((k s : ℕ)
        → (k == c) ≡ false
        → mem k (d'.locals s).local_channels ≡ mem k (d.locals s).local_channels)
    → ((k : ℕ) → d'.global_channels k ≡ update c (refcount hs) d.global_channels k)
    → d'.broker ≡ d.broker ++ calls
    → ((k : ℕ)
        → bound_after k (not (is_empty (i.holders k))) calls
          ≡ (if k == c then not (is_empty hs) else not (is_empty (i.holders k))))
    → length hs ≤ n'
    → n ≤ n'
    → IsCounted n' d'
recount n n' d d' c hs calls i distinct holds others counted broker bound few more = record {
  holders = update c hs i.holders;
  distinct = λ k. if_ind NoDup (k == c) (λ _. distinct) (λ _. i.distinct k);
  holds = λ k s. elim (Bool-cases (k == c)) [
    | inl e ↦ let same : k ≡ c = ground arith in rw (e, same) (holds s)
    | inr e ↦ rw e (i.holds k s ∙ sym (others k s e))
  ];
  counted = λ k.
      counted k ∙ elim (Bool-cases (k == c)) [ inl e ↦ rw e refl | inr e ↦ rw e (i.counted k) ];
  bound = λ k.
      ap (bound_after k false) broker
      ∙ bound_after-append k d.broker false calls
      ∙ ap (λ b. bound_after k b calls) (i.bound k)
      ∙ bound k
      ∙ elim (Bool-cases (k == c)) [ inl e ↦ rw e refl | inr e ↦ rw e refl ];
  few = λ k. if_ind (λ xs. length xs ≤ n') (k == c) (λ _. few) (λ _. omega (arith, i.few k, more));
}

-- What retain_channel and release_channel make, with the fields that they leave alone in view.
abbrev retain_calls : Option ℕ → ℕ → List BrokerCall
retain_calls none c = bind_channel c ∷ []
retain_calls (some _) c = []

abbrev retained : ℕ → Director → Director
retained c d = record d {
  global_channels =
      update c (some ((count_at (d.global_channels c) + 1) % 2 ^ 32)) d.global_channels;
  broker = d.broker ++ retain_calls (d.global_channels c) c;
}

retain_from-eq :
    (o : Option ℕ) (c : ℕ) (d : Director)
    → retain_from o c d ≡ record d {
      global_channels = update c (some ((count_at o + 1) % 2 ^ 32)) d.global_channels;
      broker = d.broker ++ retain_calls o c;
    }
unfolding retain_from
retain_from-eq none c d = refl
retain_from-eq (some n) c d =
    ap
      (λ (b : List BrokerCall). record d {
        global_channels = update c (some ((n + 1) % 2 ^ 32)) d.global_channels;
        broker = b;
      })
      (sym (append-nil d.broker))

retain_channel-eq : (c : ℕ) (d : Director) → retain_channel c d ≡ retained c d
unfolding retain_channel
retain_channel-eq c d = retain_from-eq (d.global_channels c) c d

refcount-push :
    (hs : List ℕ) (s : ℕ)
    → suc (length hs) < 2 ^ 32
    → some ((count_at (refcount hs) + 1) % 2 ^ 32) ≡ refcount (s ∷ hs)
refcount-push [] s h = refl
refcount-push (k ∷ hs) s h = ap some (omega (arith, h))

retain_calls-bound :
    (hs : List ℕ) (c k : ℕ) (was : Bool)
    → ((k == c) ≡ true → was ≡ not (is_empty hs))
    → bound_after k was (retain_calls (refcount hs) c) ≡ (if k == c then true else was)
retain_calls-bound [] c k was h = refl
retain_calls-bound (x ∷ hs) c k was h = ground (arith, h)

-- The channels of all the subscribers, when `s` takes or gives back `c`.
abbrev Locals : Director → Director → ℕ → List ℕ → Type 0
Locals d d' s cs =
    (t : ℕ) → (d'.locals t).local_channels ≡ (if t == s then cs else (d.locals t).local_channels)

Locals-others :
    (d d' : Director) (s : ℕ) (cs : List ℕ) (k t : ℕ)
    → Locals d d' s cs
    → mem k cs ≡ mem k (d.locals s).local_channels
    → mem k (d'.locals t).local_channels ≡ mem k (d.locals t).local_channels
Locals-others d d' s cs k t locals same = ap (mem k) (locals t) ∙ elim (Bool-cases (t == s)) [
  | inl e ↦ let eq : t ≡ s = ground arith in rw (e, eq) same
  | inr e ↦ rw e refl
]

Locals-holds :
    (d d' : Director) (s : ℕ) (cs : List ℕ) (c t : ℕ) (b : Bool)
    → Locals d d' s cs
    → ((t == s) ≡ true → b ≡ mem c cs)
    → ((t == s) ≡ false → b ≡ mem c (d.locals t).local_channels)
    → b ≡ mem c (d'.locals t).local_channels
Locals-holds d d' s cs c t b locals here there = elim (Bool-cases (t == s)) [
  | inl e ↦ here e ∙ sym (ap (mem c) (locals t ∙ rw e refl))
  | inr e ↦ there e ∙ sym (ap (mem c) (locals t ∙ rw e refl))
]

index_same : (i : ℕ → List ℕ) (k c : ℕ) → (k == c) ≡ true → i k ≡ i c
index_same i k c e = let eq : k ≡ c = ground arith in ap i eq

-- A subscriber takes a channel that it does not have.
take-IsCounted :
    (n c s : ℕ) (d d' : Director)
    → suc n < 2 ^ 32
    → (i : IsCounted n d) → mem c (d.locals s).local_channels ≡ false
    → Locals d d' s (c ∷ (d.locals s).local_channels)
    → d'.global_channels ≡ d.global_channels
    → d'.broker ≡ d.broker
    → IsCounted (suc n) (retain_channel c d')
take-IsCounted n c s d d' small i new locals globals broker =
    subst (IsCounted (suc n)) (sym (retain_channel-eq c d')) (
      recount n (suc n) d (retained c d') c (s ∷ i.holders c)
        (retain_calls (refcount (i.holders c)) c) i (i.holds c s ∙ new, i.distinct c)
        (λ t.
          Locals-holds d d' s _ c t _ locals (λ e. ground arith) (λ e. ground (arith, i.holds c t)))
        (λ k t e. Locals-others d d' s _ k t locals (ground arith))
        (λ k.
          rw (globals, i.counted c, refcount-push (i.holders c) s (omega (arith, i.few c, small)))
            refl)
        (rw (broker, globals, i.counted c) refl)
        (λ k.
          retain_calls-bound (i.holders c) c k _
            (λ e. ap (λ hs. not (is_empty hs)) (index_same i.holders k c e)))
        (omega (arith, i.few c)) (omega arith))

pub IsCounted-suc : (n : ℕ) (d : Director) → IsCounted n d → IsCounted (suc n) d
IsCounted-suc n d i = record {
  holders = i.holders;
  distinct = i.distinct;
  holds = i.holds;
  counted = i.counted;
  bound = i.bound;
  few = λ k. omega (arith, i.few k);
}

take_channel-Locals :
    (s c : ℕ) (d : Director) → Locals d (take_channel s c d) s (c ∷ (d.locals s).local_channels)
take_channel-Locals s c d t =
    if_ind
      (λ (e : Director).
        (e.locals t).local_channels
        ≡ (if t == s then c ∷ (d.locals s).local_channels else (d.locals t).local_channels))
      (d.locals s).shared (λ _. ground arith) (λ _. ground arith)

pub subscribe_channel-IsCounted :
    (n s c : ℕ) (d : Director)
    → suc n < 2 ^ 32
    → IsCounted n d
    → IsCounted (suc n) (subscribe_channel s c d)
unfolding subscribe_channel
subscribe_channel-IsCounted n s c d small i =
    if_ind (IsCounted (suc n)) (mem c (d.locals s).local_channels) (λ _. IsCounted-suc n d i)
      (λ new.
        take-IsCounted n c s d (take_channel s c d) small i new (take_channel-Locals s c d)
          (if_ind (λ (e : Director). e.global_channels ≡ d.global_channels) (d.locals s).shared
            (λ _. refl) (λ _. refl))
          (if_ind (λ (e : Director). e.broker ≡ d.broker) (d.locals s).shared (λ _. refl)
            (λ _. refl)))

-- The count of a channel after a holder left.
abbrev fewer : Option ℕ → ℕ
fewer o = (count_at o + (2 ^ 32 - 1)) % 2 ^ 32

abbrev released : ℕ → Director → Director
released c d =
    let n = fewer (d.global_channels c) in
    record d {
      global_channels = update c (if n == 0 then none else some n) d.global_channels;
      broker = d.broker ++ (if n == 0 then unbind_channel c ∷ [] else []);
    }

release_channel-eq : (c : ℕ) (d : Director) → release_channel c d ≡ released c d
unfolding release_channel
release_channel-eq c d = elim (Bool-cases (fewer (d.global_channels c) == 0)) [
  | inl e ↦ rw e refl
  | inr e ↦ rw e (
      ap
        (λ (b : List BrokerCall). record d {
          global_channels = update c (some (fewer (d.global_channels c))) d.global_channels;
          broker = b;
        })
        (sym (append-nil d.broker)))
]

fewer-length :
    (hs gs : List ℕ)
    → length hs < 2 ^ 32
    → length hs ≡ suc (length gs)
    → fewer (refcount hs) ≡ length gs
fewer-length [] gs small h = absurd (omega (arith, h))
fewer-length (x ∷ hs) gs small h = omega (arith, small, h)

refcount-fewer :
    (hs gs : List ℕ)
    → length hs < 2 ^ 32
    → length hs ≡ suc (length gs)
    → (if fewer (refcount hs) == 0 then none else some (fewer (refcount hs))) ≡ refcount gs
refcount-fewer hs [] small h = rw (fewer-length hs [] small h) refl
refcount-fewer hs (g ∷ gs) small h = rw (fewer-length hs (g ∷ gs) small h) (ground arith)

release_calls-bound :
    (hs gs : List ℕ) (c k : ℕ) (was : Bool)
    → length hs < 2 ^ 32
    → length hs ≡ suc (length gs)
    → ((k == c) ≡ true → was ≡ not (is_empty hs))
    → bound_after k was (if fewer (refcount hs) == 0 then unbind_channel c ∷ [] else [])
      ≡ (if k == c then not (is_empty gs) else was)
release_calls-bound [] gs c k was small h same = absurd (omega (arith, h))
release_calls-bound (x ∷ hs) [] c k was small h same = rw (fewer-length (x ∷ hs) [] small h) refl
release_calls-bound (x ∷ hs) (g ∷ gs) c k was small h same =
    rw (fewer-length (x ∷ hs) (g ∷ gs) small h) (ground (arith, same))

-- A subscriber gives back a channel that it has.
drop-IsCounted :
    (n c s : ℕ) (d : Director)
    → n < 2 ^ 32
    → (i : IsCounted n d) → mem c (d.locals s).local_channels ≡ true
    → IsCounted n (release_channel c (drop_channel s c d))
drop-IsCounted n c s d small i had =
    let d' = drop_channel s c d in
    let hs = i.holders c in
    let locals : Locals d d' s (remove c (d.locals s).local_channels) = λ t. ground arith in
    let one = length-remove s hs (i.distinct c) (i.holds c s ∙ had) in
    let fits : length hs < 2 ^ 32 = omega (arith, i.few c, small) in
    subst (IsCounted n) (sym (release_channel-eq c d')) (
      recount n n d (released c d') c (remove s hs)
        (if fewer (refcount hs) == 0 then unbind_channel c ∷ [] else []) i
        (NoDup-remove s hs (i.distinct c))
        (λ t.
          mem-remove t s hs
          ∙ Locals-holds d d' s _ c t _ locals
              (λ e. ground (arith, mem-remove c c (d.locals s).local_channels))
              (λ e. ground (arith, i.holds c t)))
        (λ k t e.
          Locals-others d d' s _ k t locals
            (ground (arith, mem-remove k c (d.locals s).local_channels)))
        (λ k. rw (i.counted c, refcount-fewer hs (remove s hs) fits one) refl)
        (rw (i.counted c) refl)
        (λ k.
          release_calls-bound hs (remove s hs) c k _ fits one
            (λ e. ap (λ hs. not (is_empty hs)) (index_same i.holders k c e)))
        (omega (arith, i.few c, one)) (omega arith))

pub unsubscribe_channel-IsCounted :
    (n s c : ℕ) (d : Director)
    → n < 2 ^ 32
    → IsCounted n d
    → IsCounted n (unsubscribe_channel s c d)
unfolding unsubscribe_channel
unsubscribe_channel-IsCounted n s c d small i =
    if_ind (IsCounted n) (mem c (d.locals s).local_channels) (drop-IsCounted n c s d small i)
      (λ _. i)
