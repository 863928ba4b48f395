-- ===== src/MessageDirector/Subscriber/Index.antt =====
-- The two indexes of the dispatch, as far as they are about one subscriber.
use ardos.Prelude.{ℕ, ◌≡◌, inl, inr, true, ◌&&◌, arith, ◌==◌, if_ind, Bool-cases}
use ardos.Prelude.Sets.{mem, mem-insert, mem-remove}
use ardos.MessageDirector.Subscriber.{
  Director, buckets, take_channel, drop_channel, take_range, drop_range, mem_range, erase_range,
  subscribe_channel, unsubscribe_channel,
}
use ardos.MessageDirector.Subscriber.Ranges.{
  covers, apart, covers-append, covers-erase_range, apart-covers,
}
use ardos.MessageDirector.Subscriber.Views.{
  Untouched, retain_channel-Untouched, release_channel-Untouched,
}

-- The channel index has the subscriber for just its channels, once it is initialised.
abbrev pub InChannels : ℕ → Director → Type 0
InChannels s d =
    (c : ℕ) → mem s (d.channel_index c) ≡ (d.locals s).shared && mem c (d.locals s).local_channels

-- The bucket index has it for no more buckets than its ranges touch.
abbrev pub InBuckets : ℕ → Director → Type 0
InBuckets s d =
    (b : ℕ)
    → mem s (d.bucket_index b)
      ≡ mem s (d.bucket_index b) && ((d.locals s).shared && covers b (d.locals s).local_ranges)

-- It has it for all of them.
abbrev pub InAllBuckets : ℕ → Director → Type 0
InAllBuckets s d =
    (b : ℕ) → mem s (d.bucket_index b) ≡ (d.locals s).shared && covers b (d.locals s).local_ranges

pub InAllBuckets-InBuckets : (s : ℕ) (d : Director) → InAllBuckets s d → InBuckets s d
InAllBuckets-InBuckets s d h b = ground (arith, h b)

module _ {s : ℕ} {d d' : Director} (u : Untouched s d d') where
  pub InChannels-Untouched : InChannels s d → InChannels s d'
  InChannels-Untouched h c = rw (u.channels c, u.local) (h c)

  pub InBuckets-Untouched : InBuckets s d → InBuckets s d'
  InBuckets-Untouched h b = rw (u.buckets b, u.local) (h b)

  pub InAllBuckets-Untouched : InAllBuckets s d → InAllBuckets s d'
  InAllBuckets-Untouched h b = rw (u.buckets b, u.local) (h b)

-- Its own calls. Channels first.
take_channel-InChannels :
    (s c : ℕ) (d : Director) → InChannels s d → InChannels s (take_channel s c d)
take_channel-InChannels s c d h k = elim (Bool-cases (d.locals s).shared) [
  | inl e ↦ elim (Bool-cases (k == c)) [
    | inl f ↦
        let eq : k ≡ c = ground arith in ground (arith, h c, mem-insert s s (d.channel_index c))
    | inr f ↦ ground (arith, h k)
  ]
  | inr e ↦ ground (arith, h k)
]

pub subscribe_channel-InChannels :
    (s c : ℕ) (d : Director) → InChannels s d → InChannels s (subscribe_channel s c d)
unfolding subscribe_channel
subscribe_channel-InChannels s c d h =
    if_ind (InChannels s) (mem c (d.locals s).local_channels) (λ _. h)
      (λ _.
        InChannels-Untouched (retain_channel-Untouched s c (take_channel s c d))
          (take_channel-InChannels s c d h))

drop_channel-InChannels :
    (s c : ℕ) (d : Director) → InChannels s d → InChannels s (drop_channel s c d)
drop_channel-InChannels s c d h k = elim (Bool-cases (k == c)) [
  | inl f ↦
      ground (arith, mem-remove s s (d.channel_index c), mem-remove k c (d.locals s).local_channels)
  | inr f ↦ ground (arith, h k, mem-remove k c (d.locals s).local_channels)
]

pub unsubscribe_channel-InChannels :
    (s c : ℕ) (d : Director) → InChannels s d → InChannels s (unsubscribe_channel s c d)
unfolding unsubscribe_channel
unsubscribe_channel-InChannels s c d h =
    if_ind (InChannels s) (mem c (d.locals s).local_channels)
      (λ _.
        InChannels-Untouched (release_channel-Untouched s c (drop_channel s c d))
          (drop_channel-InChannels s c d h))
      (λ _. h)

pub take_range-InAllBuckets :
    (s : ℕ) (r : ℕ × ℕ) (d : Director) → InAllBuckets s d → InAllBuckets s (take_range s r d)
take_range-InAllBuckets s r d h b = elim (Bool-cases (d.locals s).shared) [
  | inl e ↦
      ground
        (arith, h b, mem-insert s s (d.bucket_index b), covers-append b (d.locals s).local_ranges r)
  | inr e ↦ ground (arith, h b)
]

pub take_range-InBuckets :
    (s : ℕ) (r : ℕ × ℕ) (d : Director) → InBuckets s d → InBuckets s (take_range s r d)
take_range-InBuckets s r d h b = elim (Bool-cases (d.locals s).shared) [
  | inl e ↦
      ground
        (arith, h b, mem-insert s s (d.bucket_index b), covers-append b (d.locals s).local_ranges r)
  | inr e ↦ ground (arith, h b)
]

pub drop_range-InBuckets :
    (s : ℕ) (r : ℕ × ℕ) (d : Director)
    → mem_range r (d.locals s).local_ranges ≡ true
    → InBuckets s d
    → InBuckets s (drop_range s r d)
drop_range-InBuckets s r d had h b = ground (
  arith,
  h b,
  mem-remove s s (d.bucket_index b),
  covers-erase_range b r (d.locals s).local_ranges had,
)

pub drop_range-InAllBuckets :
    (s : ℕ) (r : ℕ × ℕ) (d : Director)
    → mem_range r (d.locals s).local_ranges ≡ true
    → apart (buckets r) (erase_range r (d.locals s).local_ranges) ≡ true
    → InAllBuckets s d
    → InAllBuckets s (drop_range s r d)
drop_range-InAllBuckets s r d had alone h b = elim (Bool-cases (mem b (buckets r))) [
  | inl e ↦ ground (
    arith,
    mem-remove s s (d.bucket_index b),
    apart-covers (buckets r) (erase_range r (d.locals s).local_ranges) b alone e,
  )
  | inr e ↦ ground (arith, h b, covers-erase_range b r (d.locals s).local_ranges had)
]
