-- ===== src/MessageDirector/Subscriber/Bindings.antt =====
-- The reference counts in every history of the subscribers of a process.
use ardos.Prelude.{
  ℕ, zero, suc, ◌+◌, ◌-◌, ◌%◌, ◌^◌, ◌<◌, ◌≡◌, inl, inr, refl, sym, ap, subst, ◌∙◌, false, List, [],
  ◌∷◌, length, arith, ◌==◌, if_ind, Bool-cases, Option,
}
use ardos.Prelude.Sets.{mem, update}
use ardos.MessageDirector.Subscriber.{
  bind_bucket, unbind_bucket, Director, Subscriber, fresh, buckets, count_at, index_channel,
  index_channels, index_ranges, index_buckets, remove_subscriber, retain_bucket, retain_buckets,
  release_bucket, release_buckets, take_range, drop_range, mem_range, back, begin, set_locals,
  subscribe_range, unsubscribe_range, unsubscribe_channel, unsubscribe_channels, unsubscribe_ranges,
  init, shutdown, Event, inits, shuts_down, subscribes, unsubscribes, subscribes_range,
  unsubscribes_range, step, run,
}
use ardos.MessageDirector.Subscriber.Channels.{
  bound_after, bound_after-append, IsCounted, IsCounted-suc, subscribe_channel-IsCounted,
  unsubscribe_channel-IsCounted,
}

-- A step that leaves the channels alone.
pub record Keeps (d d' : Director) : Type 0 where
  pub channels : (s : ℕ) → (d'.locals s).local_channels ≡ (d.locals s).local_channels
  pub counts : d'.global_channels ≡ d.global_channels
  pub bindings : (k : ℕ) → bound_after k false d'.broker ≡ bound_after k false d.broker

Keeps-refl : (d : Director) → Keeps d d
Keeps-refl d = record { channels = λ _. refl; counts = refl; bindings = λ _. refl }

Keeps-trans : {d e f : Director} → Keeps d e → Keeps e f → Keeps d f
Keeps-trans a b = record {
  channels = λ s. b.channels s ∙ a.channels s;
  counts = b.counts ∙ a.counts;
  bindings = λ k. b.bindings k ∙ a.bindings k;
}

Keeps-IsCounted : (n : ℕ) {d d' : Director} → Keeps d d' → IsCounted n d → IsCounted n d'
Keeps-IsCounted n {d = d} {d' = d'} k i = record {
  holders = i.holders;
  distinct = i.distinct;
  holds = λ c s. i.holds c s ∙ ap (mem c) (sym (k.channels s));
  counted = λ c. ap (λ (g : ℕ → Option ℕ). g c) k.counts ∙ i.counted c;
  bound = λ c. k.bindings c ∙ i.bound c;
  few = i.few;
}

retain_bucket-Keeps : (b : ℕ) (d : Director) → Keeps d (retain_bucket b d)
unfolding retain_bucket
retain_bucket-Keeps b d =
    if_ind (Keeps d) (count_at (d.global_buckets b) == 0)
      (λ _. record {
        channels = λ _. refl;
        counts = refl;
        bindings = λ k. bound_after-append k d.broker false (bind_bucket b ∷ []);
      })
      (λ _. record { channels = λ _. refl; counts = refl; bindings = λ _. refl })

retain_buckets-Keeps : (bs : List ℕ) (d : Director) → Keeps d (retain_buckets bs d)
unfolding retain_buckets
retain_buckets-Keeps [] d = Keeps-refl d
retain_buckets-Keeps (b ∷ bs) d =
    Keeps-trans (retain_bucket-Keeps b d) (retain_buckets-Keeps bs (retain_bucket b d))

release_bucket-Keeps : (b : ℕ) (d : Director) → Keeps d (release_bucket b d)
unfolding release_bucket
release_bucket-Keeps b d =
    if_ind (Keeps d) ((count_at (d.global_buckets b) + (2 ^ 32 - 1)) % 2 ^ 32 == 0)
      (λ _. record {
        channels = λ _. refl;
        counts = refl;
        bindings = λ k. bound_after-append k d.broker false (unbind_bucket b ∷ []);
      })
      (λ _. record { channels = λ _. refl; counts = refl; bindings = λ _. refl })

release_buckets-Keeps : (bs : List ℕ) (d : Director) → Keeps d (release_buckets bs d)
unfolding release_buckets
release_buckets-Keeps [] d = Keeps-refl d
release_buckets-Keeps (b ∷ bs) d =
    Keeps-trans (release_bucket-Keeps b d) (release_buckets-Keeps bs (release_bucket b d))

set_locals-channels :
    (s t : ℕ) (l : Subscriber) (d : Director)
    → l.local_channels ≡ (d.locals s).local_channels
    → (update s l d.locals t).local_channels ≡ (d.locals t).local_channels
set_locals-channels s t l d same = elim (Bool-cases (t == s)) [
  | inl e ↦ let eq : t ≡ s = ground arith in rw (e, eq) same
  | inr e ↦ rw e refl
]

take_range-Keeps : (s : ℕ) (r : ℕ × ℕ) (d : Director) → Keeps d (take_range s r d)
take_range-Keeps s r d = if_ind (Keeps d) (d.locals s).shared (λ _. kept _ _) (λ _. kept _ _)
  where
    kept :
        (rs : List (ℕ × ℕ)) (index : ℕ → List ℕ)
        → Keeps d (record (set_locals s (record (d.locals s) { local_ranges = rs }) d) {
          bucket_index = index;
        })
    kept rs index = record {
      channels = λ t. set_locals-channels s t _ d refl;
      counts = refl;
      bindings = λ _. refl;
    }

subscribe_range-Keeps : (s : ℕ) (r : ℕ × ℕ) (d : Director) → Keeps d (subscribe_range s r d)
unfolding subscribe_range
subscribe_range-Keeps s r d =
    if_ind (Keeps d) (mem_range r (d.locals s).local_ranges) (λ _. Keeps-refl d)
      (λ _.
        Keeps-trans (take_range-Keeps s r d) (retain_buckets-Keeps (buckets r) (take_range s r d)))

unsubscribe_range-Keeps : (s : ℕ) (r : ℕ × ℕ) (d : Director) → Keeps d (unsubscribe_range s r d)
unfolding unsubscribe_range
unsubscribe_range-Keeps s r d =
    if_ind (Keeps d) (mem_range r (d.locals s).local_ranges)
      (λ _.
        Keeps-trans
          (record {
            channels = λ t. set_locals-channels s t _ d refl;
            counts = refl;
            bindings = λ _. refl;
          })
          (release_buckets-Keeps (buckets r) (drop_range s r d)))
      (λ _. Keeps-refl d)

pub unsubscribe_ranges-Keeps :
    (rounds s : ℕ) (d : Director) → Keeps d (unsubscribe_ranges rounds s d)
unfolding unsubscribe_ranges
unsubscribe_ranges-Keeps zero s d = Keeps-refl d
unsubscribe_ranges-Keeps (suc rounds) s d =
    let ranges = (d.locals s).local_ranges in
    if_ind (Keeps d) (length ranges == 0) (λ _. Keeps-refl d)
      (λ _.
        Keeps-trans (unsubscribe_range-Keeps s (back (0, 0) ranges) d)
          (unsubscribe_ranges-Keeps rounds s (unsubscribe_range s (back (0, 0) ranges) d)))

index_channels-Keeps : (s : ℕ) (cs : List ℕ) (d : Director) → Keeps d (index_channels s cs d)
index_channels-Keeps s [] d = Keeps-refl d
index_channels-Keeps s (c ∷ cs) d =
    Keeps-trans (record { channels = λ _. refl; counts = refl; bindings = λ _. refl })
      (index_channels-Keeps s cs (index_channel s c d))

index_ranges-Keeps : (s : ℕ) (rs : List (ℕ × ℕ)) (d : Director) → Keeps d (index_ranges s rs d)
index_ranges-Keeps s [] d = Keeps-refl d
index_ranges-Keeps s (r ∷ rs) d =
    Keeps-trans (record { channels = λ _. refl; counts = refl; bindings = λ _. refl })
      (index_ranges-Keeps s rs (index_buckets s (buckets r) d))

init-Keeps : (s : ℕ) (d : Director) → Keeps d (init s d)
unfolding init
init-Keeps s d =
    Keeps-trans
      (record {
        channels = λ t. set_locals-channels s t _ d refl;
        counts = refl;
        bindings = λ _. refl;
      })
      (Keeps-trans (index_channels-Keeps s (d.locals s).local_channels _)
        (index_ranges-Keeps s (d.locals s).local_ranges _))

unsubscribe_channels-IsCounted :
    (n rounds s : ℕ) (d : Director)
    → n < 2 ^ 32
    → IsCounted n d
    → IsCounted n (unsubscribe_channels rounds s d)
unfolding unsubscribe_channels
unsubscribe_channels-IsCounted n zero s d small i = i
unsubscribe_channels-IsCounted n (suc rounds) s d small i =
    let c = begin (d.locals s).local_channels in
    if_ind (IsCounted n) (length (d.locals s).local_channels == 0) (λ _. i)
      (λ _.
        unsubscribe_channels-IsCounted n rounds s (unsubscribe_channel s c d) small
          (unsubscribe_channel-IsCounted n s c d small i))

shutdown-IsCounted :
    (n s : ℕ) (d : Director) → n < 2 ^ 32 → IsCounted n d → IsCounted n (shutdown s d)
unfolding shutdown
shutdown-IsCounted n s d small i =
    Keeps-IsCounted n
      (unsubscribe_ranges-Keeps
        (length
          ((unsubscribe_channels (length (d.locals s).local_channels) s
              (remove_subscriber s d)).locals
            s).local_ranges)
        s _)
      (unsubscribe_channels-IsCounted n (length (d.locals s).local_channels) s
        (remove_subscriber s d) small
        (Keeps-IsCounted n {d = d} {d' = remove_subscriber s d}
          (record { channels = λ _. refl; counts = refl; bindings = λ _. refl }) i))

step-IsCounted :
    (n : ℕ) (e : Event) (d : Director)
    → suc n < 2 ^ 32
    → IsCounted n d
    → IsCounted (suc n) (step e d)
unfolding step
step-IsCounted n (inits s) d small i =
    Keeps-IsCounted (suc n) (init-Keeps s d) (IsCounted-suc n d i)
step-IsCounted n (shuts_down s) d small i =
    shutdown-IsCounted (suc n) s d small (IsCounted-suc n d i)
step-IsCounted n (subscribes s c) d small i = subscribe_channel-IsCounted n s c d small i
step-IsCounted n (unsubscribes s c) d small i =
    unsubscribe_channel-IsCounted (suc n) s c d small (IsCounted-suc n d i)
step-IsCounted n (subscribes_range s r) d small i =
    Keeps-IsCounted (suc n) (subscribe_range-Keeps s r d) (IsCounted-suc n d i)
step-IsCounted n (unsubscribes_range s r) d small i =
    Keeps-IsCounted (suc n) (unsubscribe_range-Keeps s r d) (IsCounted-suc n d i)

run-from-IsCounted :
    (n m : ℕ) (d : Director) (es : List Event)
    → n + length es ≡ m
    → m < 2 ^ 32
    → IsCounted n d
    → IsCounted m (run d es)
unfolding run
run-from-IsCounted n m d [] e small i =
    let same : n ≡ m = omega (arith, e) in subst (λ k. IsCounted k d) same i
run-from-IsCounted n m d (x ∷ es) e small i =
    run-from-IsCounted (suc n) m (step x d) es (omega (arith, e)) small
      (step-IsCounted n x d (omega (arith, e, small)) i)

fresh-IsCounted : IsCounted 0 fresh
fresh-IsCounted = record {
  holders = λ _. [];
  distinct = λ _. tt;
  holds = λ _ _. refl;
  counted = λ _. refl;
  bound = λ _. refl;
  few = λ _. omega arith;
}

-- Whatever the subscribers of a process do, in fewer than 2^32 calls: every channel has a list of
-- the subscribers that have it, none twice; the global count of the channel is the length of that
-- list, and is missing when it is empty; and after the calls to the broker the channel is bound just
-- when the list is not empty.
pub run-IsCounted : (es : List Event) → length es < 2 ^ 32 → IsCounted (length es) (run fresh es)
run-IsCounted es small =
    run-from-IsCounted 0 (length es) fresh es (omega arith) small fresh-IsCounted
