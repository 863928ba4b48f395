-- ===== src/MessageDirector/Subscriber/History.antt =====
-- The two indexes after any history of the subscribers.
use ardos.Prelude.{
  ℕ, ◌≡◌, inl, inr, refl, subst, Bool, true, false, not, ◌&&◌, ◌||◌, List, [], ◌∷◌, arith, ◌==◌,
  if_ind, Bool-cases,
}
use ardos.Prelude.Sets.{mem}
use ardos.MessageDirector.Subscriber.{
  Director, fresh, buckets, mem_range, erase_range, take_range, drop_range, take_channel,
  subscribe_range, unsubscribe_range, subscribe_channel, unsubscribe_channel, drop_channel, init,
  shutdown, Event, inits, shuts_down, subscribes, unsubscribes, subscribes_range,
  unsubscribes_range, step, run,
}
use ardos.MessageDirector.Subscriber.Ranges.{apart}
use ardos.MessageDirector.Subscriber.Views.{
  Untouched, release_channel-Untouched, release_buckets-Untouched, retain_buckets-Untouched,
  retain_channel-Untouched, subscribe_channel-Untouched, unsubscribe_channel-Untouched,
  subscribe_range-Untouched, unsubscribe_range-Untouched, init-Untouched, shutdown-Untouched,
}
use ardos.MessageDirector.Subscriber.Index.{
  InChannels, InBuckets, InAllBuckets, InAllBuckets-InBuckets, InChannels-Untouched,
  InBuckets-Untouched, InAllBuckets-Untouched, subscribe_channel-InChannels,
  unsubscribe_channel-InChannels, take_range-InBuckets, take_range-InAllBuckets,
  drop_range-InAllBuckets,
}
use ardos.MessageDirector.Subscriber.Life.{
  init-InChannels, init-InBuckets, init-InAllBuckets, unsubscribe_range-InBuckets,
  unsubscribe_range-InChannels, unsubscribe_channel-InBuckets, shutdown-IsGone, IsGone-InChannels,
  IsGone-InAllBuckets,
}

-- A subscriber that gives up a range keeps no other range in the same buckets.
abbrev pub gives_up_apart : ℕ → Director → Event → Bool
gives_up_apart s d (unsubscribes_range t r) =
    not (s == t)
    || (not (mem_range r (d.locals s).local_ranges)
        || apart (buckets r) (erase_range r (d.locals s).local_ranges))
gives_up_apart s d e = true

abbrev pub all_apart : ℕ → Director → List Event → Bool
all_apart s d [] = true
all_apart s d (e ∷ es) = gives_up_apart s d e && all_apart s (step e d) es

-- Both indexes, exact but for the buckets that the subscriber was taken out of too early.
pub record Indexes (s : ℕ) (d : Director) : Type 0 where
  pub channels : InChannels s d
  pub some_buckets : InBuckets s d

Indexes-Untouched : {s : ℕ} {d d' : Director} → Untouched s d d' → Indexes s d → Indexes s d'
Indexes-Untouched u i = record {
  channels = InChannels-Untouched u i.channels;
  some_buckets = InBuckets-Untouched u i.some_buckets;
}

subscribe_range-InChannels :
    (s : ℕ) (r : ℕ × ℕ) (d : Director) → InChannels s d → InChannels s (subscribe_range s r d)
unfolding subscribe_range
subscribe_range-InChannels s r d h =
    if_ind (InChannels s) (mem_range r (d.locals s).local_ranges) (λ _. h)
      (λ _. InChannels-Untouched (retain_buckets-Untouched s (buckets r) (take_range s r d)) (λ c.
        elim (Bool-cases (d.locals s).shared) [
          | inl e ↦ ground (arith, h c)
          | inr e ↦ ground (arith, h c)
        ]))

subscribe_range-InBuckets :
    (s : ℕ) (r : ℕ × ℕ) (d : Director) → InBuckets s d → InBuckets s (subscribe_range s r d)
unfolding subscribe_range
subscribe_range-InBuckets s r d h =
    if_ind (InBuckets s) (mem_range r (d.locals s).local_ranges) (λ _. h)
      (λ _.
        InBuckets-Untouched (retain_buckets-Untouched s (buckets r) (take_range s r d))
          (take_range-InBuckets s r d h))

subscribe_range-InAllBuckets :
    (s : ℕ) (r : ℕ × ℕ) (d : Director) → InAllBuckets s d → InAllBuckets s (subscribe_range s r d)
unfolding subscribe_range
subscribe_range-InAllBuckets s r d h =
    if_ind (InAllBuckets s) (mem_range r (d.locals s).local_ranges) (λ _. h)
      (λ _.
        InAllBuckets-Untouched (retain_buckets-Untouched s (buckets r) (take_range s r d))
          (take_range-InAllBuckets s r d h))

subscribe_channel-InBuckets :
    (s c : ℕ) (d : Director) → InBuckets s d → InBuckets s (subscribe_channel s c d)
unfolding subscribe_channel
subscribe_channel-InBuckets s c d h =
    if_ind (InBuckets s) (mem c (d.locals s).local_channels) (λ _. h)
      (λ _. InBuckets-Untouched (retain_channel-Untouched s c (take_channel s c d)) (λ b.
        elim (Bool-cases (d.locals s).shared) [
          | inl e ↦ ground (arith, h b)
          | inr e ↦ ground (arith, h b)
        ]))

subscribe_channel-InAllBuckets :
    (s c : ℕ) (d : Director) → InAllBuckets s d → InAllBuckets s (subscribe_channel s c d)
unfolding subscribe_channel
subscribe_channel-InAllBuckets s c d h =
    if_ind (InAllBuckets s) (mem c (d.locals s).local_channels) (λ _. h)
      (λ _. InAllBuckets-Untouched (retain_channel-Untouched s c (take_channel s c d)) (λ b.
        elim (Bool-cases (d.locals s).shared) [
          | inl e ↦ ground (arith, h b)
          | inr e ↦ ground (arith, h b)
        ]))

unsubscribe_channel-InAllBuckets :
    (s c : ℕ) (d : Director) → InAllBuckets s d → InAllBuckets s (unsubscribe_channel s c d)
unfolding unsubscribe_channel
unsubscribe_channel-InAllBuckets s c d h =
    if_ind (InAllBuckets s) (mem c (d.locals s).local_channels)
      (λ _.
        InAllBuckets-Untouched (release_channel-Untouched s c (drop_channel s c d))
          (λ b. ground (arith, h b)))
      (λ _. h)

-- The call of some subscriber, which is this one or another one.
by_caller :
    (P : Director → Type 0) (s : ℕ) (op : ℕ → Director → Director)
    → ((t : ℕ) (d : Director) → (s == t) ≡ false → Untouched s d (op t d))
    → ((d d' : Director) → Untouched s d d' → P d → P d')
    → (t : ℕ) (d : Director) → ((s == t) ≡ true → P d → P (op s d))
    → P d
    → P (op t d)
by_caller P s op others moves t d own h = elim (Bool-cases (s == t)) [
  | inl e ↦ let eq : s ≡ t = ground arith in subst (λ k. P (op k d)) eq (own e h)
  | inr e ↦ moves d (op t d) (others t d e) h
]

step-Indexes : (s : ℕ) (e : Event) (d : Director) → Indexes s d → Indexes s (step e d)
unfolding step
step-Indexes s (inits t) d =
    by_caller (Indexes s) s init (λ t d o. init-Untouched s t o d) (λ _ _. Indexes-Untouched) t d
      (λ _ i. record {
        channels = init-InChannels s d i.channels;
        some_buckets = init-InBuckets s d i.some_buckets;
      })
step-Indexes s (shuts_down t) d =
    by_caller (Indexes s) s shutdown (λ t d o. shutdown-Untouched s t o d)
      (λ _ _. Indexes-Untouched) t d
      (λ _ i.
        let g = shutdown-IsGone s d i.channels i.some_buckets in
        record {
          channels = IsGone-InChannels s (shutdown s d) g;
          some_buckets =
              InAllBuckets-InBuckets s (shutdown s d) (IsGone-InAllBuckets s (shutdown s d) g);
        })
step-Indexes s (subscribes t c) d =
    by_caller (Indexes s) s (λ t. subscribe_channel t c)
      (λ t d o. subscribe_channel-Untouched s t o c d) (λ _ _. Indexes-Untouched) t d
      (λ _ i. record {
        channels = subscribe_channel-InChannels s c d i.channels;
        some_buckets = subscribe_channel-InBuckets s c d i.some_buckets;
      })
step-Indexes s (unsubscribes t c) d =
    by_caller (Indexes s) s (λ t. unsubscribe_channel t c)
      (λ t d o. unsubscribe_channel-Untouched s t o c d) (λ _ _. Indexes-Untouched) t d
      (λ _ i. record {
        channels = unsubscribe_channel-InChannels s c d i.channels;
        some_buckets = unsubscribe_channel-InBuckets s c d i.some_buckets;
      })
step-Indexes s (subscribes_range t r) d =
    by_caller (Indexes s) s (λ t. subscribe_range t r)
      (λ t d o. subscribe_range-Untouched s t o r d) (λ _ _. Indexes-Untouched) t d
      (λ _ i. record {
        channels = subscribe_range-InChannels s r d i.channels;
        some_buckets = subscribe_range-InBuckets s r d i.some_buckets;
      })
step-Indexes s (unsubscribes_range t r) d =
    by_caller (Indexes s) s (λ t. unsubscribe_range t r)
      (λ t d o. unsubscribe_range-Untouched s t o r d) (λ _ _. Indexes-Untouched) t d
      (λ _ i. record {
        channels = unsubscribe_range-InChannels s r d i.channels;
        some_buckets = unsubscribe_range-InBuckets s r d i.some_buckets;
      })

pub run-Indexes : (s : ℕ) (d : Director) (es : List Event) → Indexes s d → Indexes s (run d es)
unfolding run
run-Indexes s d [] i = i
run-Indexes s d (e ∷ es) i = run-Indexes s (step e d) es (step-Indexes s e d i)

unsubscribe_range-InAllBuckets :
    (s : ℕ) (r : ℕ × ℕ) (d : Director)
    → (not (mem_range r (d.locals s).local_ranges)
        || apart (buckets r) (erase_range r (d.locals s).local_ranges))
      ≡ true
    → InAllBuckets s d
    → InAllBuckets s (unsubscribe_range s r d)
unfolding unsubscribe_range
unsubscribe_range-InAllBuckets s r d alone h =
    if_ind (InAllBuckets s) (mem_range r (d.locals s).local_ranges)
      (λ had.
        InAllBuckets-Untouched (release_buckets-Untouched s (buckets r) (drop_range s r d))
          (drop_range-InAllBuckets s r d had (ground arith) h))
      (λ _. h)

step-InAllBuckets :
    (s : ℕ) (e : Event) (d : Director)
    → gives_up_apart s d e ≡ true
    → Indexes s d
    → InAllBuckets s d
    → InAllBuckets s (step e d)
unfolding step
step-InAllBuckets s (inits t) d alone i =
    by_caller (InAllBuckets s) s init (λ t d o. init-Untouched s t o d)
      (λ _ _. InAllBuckets-Untouched) t d (λ _. init-InAllBuckets s d)
step-InAllBuckets s (shuts_down t) d alone i =
    by_caller (InAllBuckets s) s shutdown (λ t d o. shutdown-Untouched s t o d)
      (λ _ _. InAllBuckets-Untouched) t d
      (λ _ _. IsGone-InAllBuckets s (shutdown s d) (shutdown-IsGone s d i.channels i.some_buckets))
step-InAllBuckets s (subscribes t c) d alone i =
    by_caller (InAllBuckets s) s (λ t. subscribe_channel t c)
      (λ t d o. subscribe_channel-Untouched s t o c d) (λ _ _. InAllBuckets-Untouched) t d
      (λ _. subscribe_channel-InAllBuckets s c d)
step-InAllBuckets s (unsubscribes t c) d alone i =
    by_caller (InAllBuckets s) s (λ t. unsubscribe_channel t c)
      (λ t d o. unsubscribe_channel-Untouched s t o c d) (λ _ _. InAllBuckets-Untouched) t d
      (λ _. unsubscribe_channel-InAllBuckets s c d)
step-InAllBuckets s (subscribes_range t r) d alone i =
    by_caller (InAllBuckets s) s (λ t. subscribe_range t r)
      (λ t d o. subscribe_range-Untouched s t o r d) (λ _ _. InAllBuckets-Untouched) t d
      (λ _. subscribe_range-InAllBuckets s r d)
step-InAllBuckets s (unsubscribes_range t r) d alone i =
    by_caller (InAllBuckets s) s (λ t. unsubscribe_range t r)
      (λ t d o. unsubscribe_range-Untouched s t o r d) (λ _ _. InAllBuckets-Untouched) t d
      (λ own. unsubscribe_range-InAllBuckets s r d (ground arith))

pub run-InAllBuckets :
    (s : ℕ) (d : Director) (es : List Event)
    → all_apart s d es ≡ true
    → Indexes s d
    → InAllBuckets s d
    → InAllBuckets s (run d es)
unfolding run
run-InAllBuckets s d [] alone i h = h
run-InAllBuckets s d (e ∷ es) alone i h =
    run-InAllBuckets s (step e d) es (ground arith) (step-Indexes s e d i)
      (step-InAllBuckets s e d (ground arith) i h)

pub fresh-Indexes : (s : ℕ) → Indexes s fresh
fresh-Indexes s = record { channels = λ _. refl; some_buckets = λ _. refl }
