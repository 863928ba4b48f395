-- ===== src/MessageDirector/Subscriber/Life.antt =====
-- Init and Shutdown, for the subscriber itself.
use ardos.Prelude.{
  ℕ, zero, suc, ◌≤◌, ◌≡◌, inl, inr, refl, sym, ap, subst, ◌∙◌, true, false, ◌||◌, List, [], ◌∷◌,
  length, arith, ◌==◌, if_ind, Bool-cases,
}
use ardos.Prelude.Sets.{mem, remove, mem-insert}
use ardos.MessageDirector.Subscriber.{
  Director, Subscriber, buckets, set_locals, add_subscriber, remove_subscriber, back, begin,
  index_channel, index_channels, index_ranges, index_buckets, drop_range, drop_channel, mem_range,
  erase_range, unsubscribe_range, unsubscribe_channel, unsubscribe_channels, unsubscribe_ranges,
  init, shutdown,
}
use ardos.MessageDirector.Subscriber.Ranges.{covers, length-erase_range, mem_range-back}
use ardos.MessageDirector.Subscriber.Views.{release_channel-Untouched, release_buckets-Untouched}
use ardos.MessageDirector.Subscriber.Bindings.{unsubscribe_ranges-Keeps}
use ardos.MessageDirector.Subscriber.Index.{
  InChannels, InBuckets, InAllBuckets, InBuckets-Untouched, InChannels-Untouched,
  unsubscribe_channel-InChannels, drop_range-InBuckets,
}

record Indexed (s : ℕ) (cs : List ℕ) (rs : List (ℕ × ℕ)) (d d' : Director) : Type 0 where
  pub local : d'.locals s ≡ d.locals s
  pub channels : (c : ℕ) → mem s (d'.channel_index c) ≡ mem s (d.channel_index c) || mem c cs
  pub in_buckets : (b : ℕ) → mem s (d'.bucket_index b) ≡ mem s (d.bucket_index b) || covers b rs

index_channels-Indexed :
    (s : ℕ) (cs : List ℕ) (d : Director) → Indexed s cs [] d (index_channels s cs d)
index_channels-Indexed s [] d = record {
  local = refl;
  channels = λ c. ground arith;
  in_buckets = λ b. ground arith;
}
index_channels-Indexed s (c ∷ cs) d =
    let i = index_channels-Indexed s cs (index_channel s c d) in
    record {
      local = i.local;
      channels = λ k. i.channels k ∙ elim (Bool-cases (k == c)) [
        | inl e ↦
            let eq : k ≡ c = ground arith in
            rw eq (ground (arith, mem-insert s s (d.channel_index c)))
        | inr e ↦ ground arith
      ];
      in_buckets = i.in_buckets;
    }

index_ranges-Indexed :
    (s : ℕ) (rs : List (ℕ × ℕ)) (d : Director) → Indexed s [] rs d (index_ranges s rs d)
index_ranges-Indexed s [] d = record {
  local = refl;
  channels = λ c. ground arith;
  in_buckets = λ b. ground arith;
}
index_ranges-Indexed s (r ∷ rs) d =
    let i = index_ranges-Indexed s rs (index_buckets s (buckets r) d) in
    record {
      local = i.local;
      channels = i.channels;
      in_buckets = λ b. i.in_buckets b ∙ ground (arith, mem-insert s s (d.bucket_index b));
    }

-- Init before it fills the indexes.
abbrev registered : ℕ → Director → Director
registered s d = add_subscriber s (set_locals s (record (d.locals s) { shared = true }) d)

init-Indexed :
    (s : ℕ) (d : Director)
    → Indexed s (d.locals s).local_channels (d.locals s).local_ranges (registered s d) (init s d)
unfolding init
init-Indexed s d =
    let i = index_channels-Indexed s (d.locals s).local_channels (registered s d) in
    let j =
      index_ranges-Indexed s (d.locals s).local_ranges
        (index_channels s (d.locals s).local_channels (registered s d)) in
    record {
      local = j.local ∙ i.local;
      channels = λ c. ground (arith, j.channels c, i.channels c);
      in_buckets = λ b. ground (arith, j.in_buckets b, i.in_buckets b);
    }

registered-local :
    (s : ℕ) (d : Director) → (registered s d).locals s ≡ record (d.locals s) { shared = true }
registered-local s d = ground arith

pub init-InChannels : (s : ℕ) (d : Director) → InChannels s d → InChannels s (init s d)
init-InChannels s d h c =
    let i = init-Indexed s d in
    rw (i.channels c, i.local, registered-local s d) (ground (arith, h c))

pub init-InBuckets : (s : ℕ) (d : Director) → InBuckets s d → InBuckets s (init s d)
init-InBuckets s d h b =
    let i = init-Indexed s d in
    rw (i.in_buckets b, i.local, registered-local s d) (ground (arith, h b))

pub init-InAllBuckets : (s : ℕ) (d : Director) → InAllBuckets s d → InAllBuckets s (init s d)
init-InAllBuckets s d h b =
    let i = init-Indexed s d in
    rw (i.in_buckets b, i.local, registered-local s d) (ground (arith, h b))

pub unsubscribe_range-InBuckets :
    (s : ℕ) (r : ℕ × ℕ) (d : Director) → InBuckets s d → InBuckets s (unsubscribe_range s r d)
unfolding unsubscribe_range
unsubscribe_range-InBuckets s r d h =
    if_ind (InBuckets s) (mem_range r (d.locals s).local_ranges)
      (λ had.
        InBuckets-Untouched (release_buckets-Untouched s (buckets r) (drop_range s r d))
          (drop_range-InBuckets s r d had h))
      (λ _. h)

pub unsubscribe_range-InChannels :
    (s : ℕ) (r : ℕ × ℕ) (d : Director) → InChannels s d → InChannels s (unsubscribe_range s r d)
unfolding unsubscribe_range
unsubscribe_range-InChannels s r d h =
    if_ind (InChannels s) (mem_range r (d.locals s).local_ranges)
      (λ _.
        InChannels-Untouched (release_buckets-Untouched s (buckets r) (drop_range s r d))
          (λ c. ground (arith, h c)))
      (λ _. h)

-- The loop over the channels touches neither the ranges nor their index.
pub unsubscribe_channel-InBuckets :
    (s c : ℕ) (d : Director) → InBuckets s d → InBuckets s (unsubscribe_channel s c d)
unfolding unsubscribe_channel
unsubscribe_channel-InBuckets s c d h =
    if_ind (InBuckets s) (mem c (d.locals s).local_channels)
      (λ _.
        InBuckets-Untouched (release_channel-Untouched s c (drop_channel s c d))
          (λ b. ground (arith, h b)))
      (λ _. h)

unsubscribe_channels-InBuckets :
    (rounds s : ℕ) (d : Director) → InBuckets s d → InBuckets s (unsubscribe_channels rounds s d)
unfolding unsubscribe_channels
unsubscribe_channels-InBuckets zero s d h = h
unsubscribe_channels-InBuckets (suc rounds) s d h =
    let c = begin (d.locals s).local_channels in
    if_ind (InBuckets s) (length (d.locals s).local_channels == 0) (λ _. h)
      (λ _.
        unsubscribe_channels-InBuckets rounds s (unsubscribe_channel s c d)
          (unsubscribe_channel-InBuckets s c d h))

unsubscribe_channels-InChannels :
    (rounds s : ℕ) (d : Director) → InChannels s d → InChannels s (unsubscribe_channels rounds s d)
unfolding unsubscribe_channels
unsubscribe_channels-InChannels zero s d h = h
unsubscribe_channels-InChannels (suc rounds) s d h =
    let c = begin (d.locals s).local_channels in
    if_ind (InChannels s) (length (d.locals s).local_channels == 0) (λ _. h)
      (λ _.
        unsubscribe_channels-InChannels rounds s (unsubscribe_channel s c d)
          (unsubscribe_channel-InChannels s c d h))

unsubscribe_ranges-InChannels :
    (rounds s : ℕ) (d : Director) → InChannels s d → InChannels s (unsubscribe_ranges rounds s d)
unfolding unsubscribe_ranges
unsubscribe_ranges-InChannels zero s d h = h
unsubscribe_ranges-InChannels (suc rounds) s d h =
    let r = back (0, 0) (d.locals s).local_ranges in
    if_ind (InChannels s) (length (d.locals s).local_ranges == 0) (λ _. h)
      (λ _.
        unsubscribe_ranges-InChannels rounds s (unsubscribe_range s r d)
          (unsubscribe_range-InChannels s r d h))

unsubscribe_ranges-InBuckets :
    (rounds s : ℕ) (d : Director) → InBuckets s d → InBuckets s (unsubscribe_ranges rounds s d)
unfolding unsubscribe_ranges
unsubscribe_ranges-InBuckets zero s d h = h
unsubscribe_ranges-InBuckets (suc rounds) s d h =
    let r = back (0, 0) (d.locals s).local_ranges in
    if_ind (InBuckets s) (length (d.locals s).local_ranges == 0) (λ _. h)
      (λ _.
        unsubscribe_ranges-InBuckets rounds s (unsubscribe_range s r d)
          (unsubscribe_range-InBuckets s r d h))

unsubscribe_range-length :
    (s : ℕ) (r : ℕ × ℕ) (d : Director)
    → mem_range r (d.locals s).local_ranges ≡ true
    → length (d.locals s).local_ranges
      ≡ suc (length ((unsubscribe_range s r d).locals s).local_ranges)
unfolding unsubscribe_range
unsubscribe_range-length s r d had = rw had (
    length-erase_range r (d.locals s).local_ranges had
    ∙ ap (λ (l : Subscriber). suc (length l.local_ranges))
        (sym (
          (release_buckets-Untouched s (buckets r) (drop_range s r d)).local
          ∙ drop_range-local s r d)))
  where
    drop_range-local :
        (s : ℕ) (r : ℕ × ℕ) (d : Director)
        → (drop_range s r d).locals s
          ≡ record (d.locals s) { local_ranges = erase_range r (d.locals s).local_ranges }
    drop_range-local s r d = ground arith

-- The loop over the ranges comes to an end with none left.
pub unsubscribe_ranges-none :
    (rounds s : ℕ) (d : Director)
    → length (d.locals s).local_ranges ≤ rounds
    → length ((unsubscribe_ranges rounds s d).locals s).local_ranges ≡ 0
unfolding unsubscribe_ranges
unsubscribe_ranges-none zero s d h = omega (arith, h)
unsubscribe_ranges-none (suc rounds) s d h =
    let rs = (d.locals s).local_ranges in
    let r = back (0, 0) rs in
    if_ind (λ (e : Director). length (e.locals s).local_ranges ≡ 0) (length rs == 0)
      (λ e. ground arith)
      (λ e.
        unsubscribe_ranges-none rounds s (unsubscribe_range s r d)
          (omega (arith, h, unsubscribe_range-length s r d (mem_range-back rs (0, 0) e))))

length-remove-begin :
    (cs : List ℕ) (rounds : ℕ) → length cs ≤ suc rounds → length (remove (begin cs) cs) ≤ rounds
length-remove-begin [] rounds h = omega arith
length-remove-begin (c ∷ cs) rounds h = ground (arith, length-remove_le c cs)
  where
    length-remove_le : (c : ℕ) (cs : List ℕ) → length (remove c cs) ≤ length cs
    length-remove_le c [] = omega arith
    length-remove_le c (x ∷ xs) = ground (arith, length-remove_le c xs)

unsubscribe_channel-local :
    (s c : ℕ) (d : Director)
    → mem c (d.locals s).local_channels ≡ true
    → ((unsubscribe_channel s c d).locals s).local_channels ≡ remove c (d.locals s).local_channels
unfolding unsubscribe_channel
unsubscribe_channel-local s c d had = rw had (
    ap (λ (l : Subscriber). l.local_channels)
      (release_channel-Untouched s c (drop_channel s c d)).local
    ∙ ground arith)

mem-begin : (cs : List ℕ) → (length cs == 0) ≡ false → mem (begin cs) cs ≡ true
mem-begin [] h = absurd (ground arith)
mem-begin (c ∷ cs) h = ground arith

pub unsubscribe_channels-none :
    (rounds s : ℕ) (d : Director)
    → length (d.locals s).local_channels ≤ rounds
    → length ((unsubscribe_channels rounds s d).locals s).local_channels ≡ 0
unfolding unsubscribe_channels
unsubscribe_channels-none zero s d h = omega (arith, h)
unsubscribe_channels-none (suc rounds) s d h =
    let cs = (d.locals s).local_channels in
    let c = begin cs in
    if_ind (λ (e : Director). length (e.locals s).local_channels ≡ 0) (length cs == 0)
      (λ e. ground arith)
      (λ e. unsubscribe_channels-none rounds s (unsubscribe_channel s c d) (
        subst (λ (xs : List ℕ). length xs ≤ rounds)
          (sym (unsubscribe_channel-local s c d (mem-begin cs e)))
          (length-remove-begin cs rounds h)))

-- What a subscriber has left, and where it is indexed, after its Shutdown.
pub record IsGone (s : ℕ) (d : Director) : Type 0 where
  pub no_channels : length (d.locals s).local_channels ≡ 0
  pub no_ranges : length (d.locals s).local_ranges ≡ 0
  pub channels : (c : ℕ) → mem s (d.channel_index c) ≡ false
  pub in_buckets : (b : ℕ) → mem s (d.bucket_index b) ≡ false

no_members : (c : ℕ) (cs : List ℕ) → length cs ≡ 0 → mem c cs ≡ false
no_members c [] h = refl
no_members c (x ∷ cs) h = absurd (omega (arith, h))

no_covers : (b : ℕ) (rs : List (ℕ × ℕ)) → length rs ≡ 0 → covers b rs ≡ false
no_covers b [] h = refl
no_covers b (r ∷ rs) h = absurd (omega (arith, h))

pub shutdown-IsGone :
    (s : ℕ) (d : Director) → InChannels s d → InBuckets s d → IsGone s (shutdown s d)
unfolding shutdown
shutdown-IsGone s d chans bucks =
    let d' = unsubscribe_channels (length (d.locals s).local_channels) s (remove_subscriber s d) in
    let rounds = length (d'.locals s).local_ranges in
    let e = unsubscribe_ranges rounds s d' in
    let no_channels : length (e.locals s).local_channels ≡ 0 =
      ap (λ (cs : List ℕ). length cs) ((unsubscribe_ranges-Keeps rounds s d').channels s)
      ∙ unsubscribe_channels-none (length (d.locals s).local_channels) s (remove_subscriber s d)
          (omega arith) in
    let no_ranges : length (e.locals s).local_ranges ≡ 0 =
      unsubscribe_ranges-none rounds s d' (omega arith) in
    let in_channels : InChannels s e = unsubscribe_ranges-InChannels rounds s d' (
      unsubscribe_channels-InChannels (length (d.locals s).local_channels) s (remove_subscriber s d)
        chans) in
    let in_some : InBuckets s e = unsubscribe_ranges-InBuckets rounds s d' (
      unsubscribe_channels-InBuckets (length (d.locals s).local_channels) s (remove_subscriber s d)
        bucks) in
    record {
      no_channels = no_channels;
      no_ranges = no_ranges;
      channels =
          λ c. ground (arith, in_channels c, no_members c (e.locals s).local_channels no_channels);
      in_buckets = λ b. ground (arith, in_some b, no_covers b (e.locals s).local_ranges no_ranges);
    }

pub IsGone-InChannels : (s : ℕ) (d : Director) → IsGone s d → InChannels s d
IsGone-InChannels s d g c =
    ground (arith, g.channels c, no_members c (d.locals s).local_channels g.no_channels)

pub IsGone-InAllBuckets : (s : ℕ) (d : Director) → IsGone s d → InAllBuckets s d
IsGone-InAllBuckets s d g b =
    ground (arith, g.in_buckets b, no_covers b (d.locals s).local_ranges g.no_ranges)
