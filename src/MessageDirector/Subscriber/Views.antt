-- ===== src/MessageDirector/Subscriber/Views.antt =====
-- What the state holds about one subscriber, and the calls that leave it alone.
use ardos.Prelude.{
  ℕ, zero, suc, ◌+◌, ◌-◌, ◌%◌, ◌^◌, ◌≡◌, inl, inr, refl, ◌∙◌, false, List, [], ◌∷◌, ◌++◌, length,
  arith, ◌==◌, if_ind, Bool-cases, Option, none, some,
}
use ardos.Prelude.Sets.{mem, remove, mem-insert, mem-remove}
use ardos.MessageDirector.Subscriber.{
  Director, Subscriber, buckets, count_at, set_locals, index_channel, unindex_channel,
  index_channels, index_ranges, index_buckets, unindex_buckets, remove_subscriber, retain_from,
  retain_channel, release_channel, take_channel, drop_channel, retain_bucket, retain_buckets,
  release_bucket, release_buckets, take_range, drop_range, mem_range, back, begin, subscribe_range,
  unsubscribe_range, subscribe_channel, unsubscribe_channel, unsubscribe_channels,
  unsubscribe_ranges, init, shutdown,
}

pub record Untouched (s : ℕ) (d d' : Director) : Type 0 where
  pub local : d'.locals s ≡ d.locals s
  pub channels : (c : ℕ) → mem s (d'.channel_index c) ≡ mem s (d.channel_index c)
  pub buckets : (b : ℕ) → mem s (d'.bucket_index b) ≡ mem s (d.bucket_index b)

pub Untouched-refl : (s : ℕ) (d : Director) → Untouched s d d
Untouched-refl s d = record { local = refl; channels = λ _. refl; buckets = λ _. refl }

pub Untouched-trans :
    {s : ℕ} {d e f : Director} → Untouched s d e → Untouched s e f → Untouched s d f
Untouched-trans a b = record {
  local = b.local ∙ a.local;
  channels = λ c. b.channels c ∙ a.channels c;
  buckets = λ c. b.buckets c ∙ a.buckets c;
}

-- The counts and the broker are no subscriber's.
pub retain_channel-Untouched : (s c : ℕ) (d : Director) → Untouched s d (retain_channel c d)
unfolding retain_channel retain_from
retain_channel-Untouched s c d = from (d.global_channels c)
  where
    from : (o : Option ℕ) → Untouched s d (retain_from o c d)
    from none = record { local = refl; channels = λ _. refl; buckets = λ _. refl }
    from (some n) = record { local = refl; channels = λ _. refl; buckets = λ _. refl }

pub release_channel-Untouched : (s c : ℕ) (d : Director) → Untouched s d (release_channel c d)
unfolding release_channel
release_channel-Untouched s c d =
    if_ind (Untouched s d) ((count_at (d.global_channels c) + (2 ^ 32 - 1)) % 2 ^ 32 == 0)
      (λ _. record { local = refl; channels = λ _. refl; buckets = λ _. refl })
      (λ _. record { local = refl; channels = λ _. refl; buckets = λ _. refl })

pub retain_buckets-Untouched :
    (s : ℕ) (bs : List ℕ) (d : Director) → Untouched s d (retain_buckets bs d)
unfolding retain_buckets retain_bucket
retain_buckets-Untouched s [] d = Untouched-refl s d
retain_buckets-Untouched s (b ∷ bs) d =
    Untouched-trans
      (if_ind (Untouched s d) (count_at (d.global_buckets b) == 0)
        (λ _. record { local = refl; channels = λ _. refl; buckets = λ _. refl })
        (λ _. record { local = refl; channels = λ _. refl; buckets = λ _. refl }))
      (retain_buckets-Untouched s bs (retain_bucket b d))

pub release_buckets-Untouched :
    (s : ℕ) (bs : List ℕ) (d : Director) → Untouched s d (release_buckets bs d)
unfolding release_buckets release_bucket
release_buckets-Untouched s [] d = Untouched-refl s d
release_buckets-Untouched s (b ∷ bs) d =
    Untouched-trans
      (if_ind (Untouched s d) ((count_at (d.global_buckets b) + (2 ^ 32 - 1)) % 2 ^ 32 == 0)
        (λ _. record { local = refl; channels = λ _. refl; buckets = λ _. refl })
        (λ _. record { local = refl; channels = λ _. refl; buckets = λ _. refl }))
      (release_buckets-Untouched s bs (release_bucket b d))

-- The calls of another subscriber.
module _ (s t : ℕ) (other : (s == t) ≡ false) where
  set_locals-Untouched : (l : Subscriber) (d : Director) → Untouched s d (set_locals t l d)
  set_locals-Untouched l d = record {
    local = rw other refl;
    channels = λ _. refl;
    buckets = λ _. refl;
  }

  index_channel-Untouched : (c : ℕ) (d : Director) → Untouched s d (index_channel t c d)
  index_channel-Untouched c d = record {
    local = refl;
    channels = λ k. elim (Bool-cases (k == c)) [
      | inl e ↦
          let eq : k ≡ c = ground arith in
          rw (e, eq, mem-insert s t (d.channel_index c), other) refl
      | inr e ↦ rw e refl
    ];
    buckets = λ _. refl;
  }

  unindex_channel-Untouched : (c : ℕ) (d : Director) → Untouched s d (unindex_channel t c d)
  unindex_channel-Untouched c d = record {
    local = refl;
    channels = λ k. elim (Bool-cases (k == c)) [
      | inl e ↦
          let eq : k ≡ c = ground arith in
          rw (e, eq, mem-remove s t (d.channel_index c), other) refl
      | inr e ↦ rw e refl
    ];
    buckets = λ _. refl;
  }

  index_buckets-Untouched : (bs : List ℕ) (d : Director) → Untouched s d (index_buckets t bs d)
  index_buckets-Untouched bs d = record {
    local = refl;
    channels = λ _. refl;
    buckets = λ b.
        if_ind (λ xs. mem s xs ≡ mem s (d.bucket_index b)) (mem b bs)
          (λ _. rw (mem-insert s t (d.bucket_index b), other) refl) (λ _. refl);
  }

  unindex_buckets-Untouched : (bs : List ℕ) (d : Director) → Untouched s d (unindex_buckets t bs d)
  unindex_buckets-Untouched bs d = record {
    local = refl;
    channels = λ _. refl;
    buckets = λ b.
        if_ind (λ xs. mem s xs ≡ mem s (d.bucket_index b)) (mem b bs)
          (λ _. rw (mem-remove s t (d.bucket_index b), other) refl) (λ _. refl);
  }

  pub subscribe_channel-Untouched : (c : ℕ) (d : Director) → Untouched s d (subscribe_channel t c d)
  unfolding subscribe_channel
  subscribe_channel-Untouched c d =
      let l = record (d.locals t) { local_channels = c ∷ (d.locals t).local_channels } in
      if_ind (Untouched s d) (mem c (d.locals t).local_channels) (λ _. Untouched-refl s d)
        (λ _.
          Untouched-trans
            (if_ind (Untouched s d) (d.locals t).shared
              (λ _.
                Untouched-trans (set_locals-Untouched l d)
                  (index_channel-Untouched c (set_locals t l d)))
              (λ _. set_locals-Untouched l d))
            (retain_channel-Untouched s c (take_channel t c d)))

  pub unsubscribe_channel-Untouched :
      (c : ℕ) (d : Director) → Untouched s d (unsubscribe_channel t c d)
  unfolding unsubscribe_channel
  unsubscribe_channel-Untouched c d =
      let l = record (d.locals t) { local_channels = remove c (d.locals t).local_channels } in
      if_ind (Untouched s d) (mem c (d.locals t).local_channels)
        (λ _.
          Untouched-trans
            (Untouched-trans (set_locals-Untouched l d)
              (unindex_channel-Untouched c (set_locals t l d)))
            (release_channel-Untouched s c (drop_channel t c d)))
        (λ _. Untouched-refl s d)

  pub subscribe_range-Untouched : (r : ℕ × ℕ) (d : Director) → Untouched s d (subscribe_range t r d)
  unfolding subscribe_range
  subscribe_range-Untouched r d =
      let l = record (d.locals t) { local_ranges = (d.locals t).local_ranges ++ (r ∷ []) } in
      if_ind (Untouched s d) (mem_range r (d.locals t).local_ranges) (λ _. Untouched-refl s d)
        (λ _.
          Untouched-trans
            (if_ind (Untouched s d) (d.locals t).shared
              (λ _.
                Untouched-trans (set_locals-Untouched l d)
                  (index_buckets-Untouched (buckets r) (set_locals t l d)))
              (λ _. set_locals-Untouched l d))
            (retain_buckets-Untouched s (buckets r) (take_range t r d)))

  pub unsubscribe_range-Untouched :
      (r : ℕ × ℕ) (d : Director) → Untouched s d (unsubscribe_range t r d)
  unfolding unsubscribe_range
  unsubscribe_range-Untouched r d =
      if_ind (Untouched s d) (mem_range r (d.locals t).local_ranges)
        (λ _.
          Untouched-trans
            (Untouched-trans (set_locals-Untouched _ d)
              (unindex_buckets-Untouched (buckets r) (set_locals t _ d)))
            (release_buckets-Untouched s (buckets r) (drop_range t r d)))
        (λ _. Untouched-refl s d)

  index_channels-Untouched : (cs : List ℕ) (d : Director) → Untouched s d (index_channels t cs d)
  index_channels-Untouched [] d = Untouched-refl s d
  index_channels-Untouched (c ∷ cs) d =
      Untouched-trans (index_channel-Untouched c d)
        (index_channels-Untouched cs (index_channel t c d))

  index_ranges-Untouched : (rs : List (ℕ × ℕ)) (d : Director) → Untouched s d (index_ranges t rs d)
  index_ranges-Untouched [] d = Untouched-refl s d
  index_ranges-Untouched (r ∷ rs) d =
      Untouched-trans (index_buckets-Untouched (buckets r) d)
        (index_ranges-Untouched rs (index_buckets t (buckets r) d))

  pub init-Untouched : (d : Director) → Untouched s d (init t d)
  unfolding init
  init-Untouched d =
      Untouched-trans (record { local = rw other refl; channels = λ _. refl; buckets = λ _. refl })
        (Untouched-trans (index_channels-Untouched (d.locals t).local_channels _)
          (index_ranges-Untouched (d.locals t).local_ranges _))

  unsubscribe_channels-Untouched :
      (rounds : ℕ) (d : Director) → Untouched s d (unsubscribe_channels rounds t d)
  unfolding unsubscribe_channels
  unsubscribe_channels-Untouched zero d = Untouched-refl s d
  unsubscribe_channels-Untouched (suc rounds) d =
      let c = begin (d.locals t).local_channels in
      if_ind (Untouched s d) (length (d.locals t).local_channels == 0) (λ _. Untouched-refl s d)
        (λ _.
          Untouched-trans (unsubscribe_channel-Untouched c d)
            (unsubscribe_channels-Untouched rounds (unsubscribe_channel t c d)))

  unsubscribe_ranges-Untouched :
      (rounds : ℕ) (d : Director) → Untouched s d (unsubscribe_ranges rounds t d)
  unfolding unsubscribe_ranges
  unsubscribe_ranges-Untouched zero d = Untouched-refl s d
  unsubscribe_ranges-Untouched (suc rounds) d =
      let r = back (0, 0) (d.locals t).local_ranges in
      if_ind (Untouched s d) (length (d.locals t).local_ranges == 0) (λ _. Untouched-refl s d)
        (λ _.
          Untouched-trans (unsubscribe_range-Untouched r d)
            (unsubscribe_ranges-Untouched rounds (unsubscribe_range t r d)))

  pub shutdown-Untouched : (d : Director) → Untouched s d (shutdown t d)
  unfolding shutdown
  shutdown-Untouched d =
      let d' =
        unsubscribe_channels (length (d.locals t).local_channels) t (remove_subscriber t d) in
      Untouched-trans
        (Untouched-trans (record { local = refl; channels = λ _. refl; buckets = λ _. refl })
          (unsubscribe_channels-Untouched (length (d.locals t).local_channels)
            (remove_subscriber t d)))
        (unsubscribe_ranges-Untouched (length (d'.locals t).local_ranges) d')
