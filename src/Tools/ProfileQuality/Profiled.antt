-- ===== src/Tools/ProfileQuality/Profiled.antt =====
-- What a quality profile says of its events.
use ai_quantum.Common.{
  Bool, ℕ, ◌+◌, ◌≤◌, ◌<◌, ◌==◌, ==_iff, ◌≡◌, refl, sym, subst, ◌∙◌, ◌⊎◌, Bool-cases, ◌||◌, inl, inr,
  true, false, List, [], ◌∷◌, length, Option, some, ok, arith,
}
use ai_quantum.Common.Text.{Text}
use ai_quantum.Common.Dict.Keys.{All}
use ai_quantum.Common.Set.{contains}
use ai_quantum.Common.Float.{Float}
use ai_quantum.Ingestion.Event.{TickDataEvent}
use ai_quantum.Tools.Reconcile.{block_instance}
use ai_quantum.Tools.ProfileQuality.{
  times_of, blocks_of, Gap, QualityProfile, gap_between, gaps_from, filled, profile_of, profile,
}
use ai_quantum.Tools.ProfileQuality.Counts.{
  occurrences, number, number-nil, number-tally, sum_of, sum_of-tally,
}
use ai_quantum.Tools.ProfileQuality.Blocks.{
  block_numbers, first_time, time_of_block, IsRising, AreRising, blocks_of-AreRising,
  contains-blocks_of, rising_fits, rising-range,
}

module _ {F T : Type 0} ⦃f : Float F⦄ (parse : Text → Option T)
    (seconds_to : T → T → Option F) where
  -- Two times that both have a zone, or neither, can be subtracted.
  abbrev pub Subtracts : (T → Bool) → Type 0
  Subtracts has_zone = (s t : T) → has_zone s ≡ has_zone t → (x : F) × (seconds_to s t ≡ some x)

  abbrev pub Reads : (T → Bool) → Bool → Text → Type 0
  Reads has_zone zoned text = (t : T) × (parse text ≡ some t) × (has_zone t ≡ zoned)

  abbrev pub AreReadable : (T → Bool) → Bool → List TickDataEvent → Type 0
  AreReadable has_zone zoned = All (λ (e : TickDataEvent). Reads has_zone zoned e.block_timestamp)

  -- The time of the block's first event.
  abbrev pub Starts : List TickDataEvent → ℕ → T → Type 0
  Starts es b t = (text : Text) × (first_time b es ≡ some text) × (parse text ≡ some t)

  Starts-first :
      (has_zone : T → Bool) (zoned : Bool) (b : ℕ) (es : List TickDataEvent)
      → AreReadable has_zone zoned es
      → contains b (block_numbers es) ≡ true
      → (t : T) × Starts es b t × (has_zone t ≡ zoned)
  unfolding contains
  Starts-first has_zone zoned b [] r c = let bad : false ≡ true = c in absurd (cc bad)
  Starts-first has_zone zoned b (e ∷ es) r c = elim (Bool-cases (e.block_number == b)) [
    | inl same ↦ let (t, p, z) = r.0 in (t, (e.block_timestamp, rw same refl, p), z)
    | inr other ↦
        let (t, (text, first, p), z) = Starts-first has_zone zoned b es r.1 (rw other at c) in
        (t, (text, rw other first, p), z)
  ]

  -- Two blocks that follow one another among those of the events, and the time between them.
  pub record IsGap (es : List TickDataEvent) (gap : Gap F) : Type 0 where
    pub rises : gap.from_block < gap.to_block
    pub adjacent :
        (c : ℕ) → contains c (block_numbers es) ≡ true → (c ≤ gap.from_block) ⊎ (gap.to_block ≤ c)
    pub earlier : T
    pub later : T
    pub from_first : Starts es gap.from_block earlier
    pub to_first : Starts es gap.to_block later
    pub timed : seconds_to earlier later ≡ some gap.seconds

  module _ (has_zone : T → Bool) (zoned : Bool) (subtracts : Subtracts has_zone)
      (es : List TickDataEvent) (readable : AreReadable has_zone zoned es) where
    gap_between-Starts :
        (a b : ℕ) (s t : T) (x : F)
        → Starts es a s
        → Starts es b t
        → seconds_to s t ≡ some x
        → gap_between parse seconds_to (times_of es []) a b
          ≡ ok (record { from_block = a; to_block = b; seconds = x })
    unfolding gap_between
    gap_between-Starts a b s t x (u, p, q) (v, p', q') h =
        rw (time_of_block b es, time_of_block a es, p, p', q, q', h) refl

    -- The blocks from `a` on: they are those of the events that are not below `a`.
    record IsSuffix (a : ℕ) (bs : List ℕ) : Type 0 where
      rising : IsRising a bs
      inside : (c : ℕ) → contains c (a ∷ bs) ≡ true → contains c (block_numbers es) ≡ true
      whole : (c : ℕ) → contains c (block_numbers es) ≡ true → (c ≤ a) ⊎ (contains c bs ≡ true)

    IsSuffix-next : (a b : ℕ) (bs : List ℕ) → IsSuffix a (b ∷ bs) → IsSuffix b bs
    unfolding contains
    IsSuffix-next a b bs s = record {
      rising = s.rising.1;
      inside =
          λ c k. s.inside c (let k' : (b == c || contains c bs) ≡ true = k in ground (arith, k'));
      whole = λ c k. elim (s.whole c k) [
        | inl low ↦ inl (omega (arith, low, s.rising.0))
        | inr high ↦ elim (Bool-cases (b == c)) [
          | inl same ↦ inl (ground (arith, same))
          | inr other ↦ inr (rw other at high)
        ]
      ];
    }

    first-IsGap :
        (a b : ℕ) (bs : List ℕ) (s t : T) (x : F)
        → IsSuffix a (b ∷ bs)
        → Starts es a s
        → Starts es b t
        → seconds_to s t ≡ some x
        → IsGap es (record { from_block = a; to_block = b; seconds = x })
    first-IsGap a b bs s t x suffix p q h = record {
      rises = suffix.rising.0;
      adjacent = λ c k. elim (suffix.whole c k) [
        | inl low ↦ inl low
        | inr high ↦ inr (rising-range b c bs suffix.rising.1 high).0
      ];
      earlier = s;
      later = t;
      from_first = p;
      to_first = q;
      timed = h;
    }

    abbrev HasGaps : ℕ → List ℕ → Type 0
    HasGaps a bs =
        (gaps : List (Gap F)) × (gaps_from parse seconds_to (times_of es []) a bs ≡ ok gaps)
        × All (IsGap es) gaps
        × (length gaps ≡ length bs)

    gaps_from-HasGaps : (a : ℕ) (bs : List ℕ) → IsSuffix a bs → HasGaps a bs
    unfolding gaps_from contains
    gaps_from-HasGaps a [] s = ([], refl, tt, refl)
    gaps_from-HasGaps a (b ∷ bs) s =
        let (t, p, y) =
          Starts-first has_zone zoned a es readable (s.inside a (ground (arith, ==_iff a a))) in
        let (u, q, z) =
          Starts-first has_zone zoned b es readable (s.inside b (ground (arith, ==_iff b b))) in
        let (x, h) = subtracts t u (y ∙ sym z) in
        let (gaps, e, all, n) = gaps_from-HasGaps b bs (IsSuffix-next a b bs s) in
        (
          record { from_block = a; to_block = b; seconds = x } ∷ gaps,
          rw (gap_between-Starts a b t u x p q h, e, gaps_from) refl,
          (first-IsGap a b bs t u x s p q h, all),
          omega (arith, n),
        )

    listed :
        (a c : ℕ) (bs : List ℕ)
        → blocks_of (times_of es []) ≡ a ∷ bs
        → contains c (a ∷ bs) ≡ contains c (block_numbers es)
    listed a c bs h =
        subst (λ l. contains c l ≡ contains c (block_numbers es)) h (contains-blocks_of c es)

    blocks-IsSuffix : (a : ℕ) (bs : List ℕ) → blocks_of (times_of es []) ≡ a ∷ bs → IsSuffix a bs
    unfolding contains
    blocks-IsSuffix a bs h = record {
      rising = subst AreRising h (blocks_of-AreRising es);
      inside = λ c k. sym (listed a c bs h) ∙ k;
      whole = λ c k.
          let k' : (a == c || contains c bs) ≡ true = listed a c bs h ∙ k in
          elim (Bool-cases (a == c)) [
            | inl same ↦ inl (ground (arith, same))
            | inr other ↦ inr (rw other at k')
          ];
    }

  -- What is promised for a profile of events that are not none.
  pub record IsProfile (es : List TickDataEvent) (p : QualityProfile F) : Type 0 where
    pub total : p.total_events ≡ length es
    pub protocols :
        (name : Text)
        → number name p.per_protocol ≡ occurrences (λ (e : TickDataEvent). e.protocol) name es
    pub protocols_total : sum_of p.per_protocol ≡ length es
    pub event_types :
        (name : Text)
        → number name p.per_event_type ≡ occurrences (λ (e : TickDataEvent). e.event_type) name es
    pub event_types_total : sum_of p.per_event_type ≡ length es
    pub range :
        (c : ℕ)
        → contains c (block_numbers es) ≡ true
        → (p.block_range.0 ≤ c) × (c ≤ p.block_range.1)
    pub fits : p.block_range.0 + p.n_blocks ≤ p.block_range.1 + 1
    pub gaps : All (IsGap es) p.timestamp_gaps
    pub all_gaps : length p.timestamp_gaps + 1 ≡ p.n_blocks

  module _ (has_zone : T → Bool) (zoned : Bool) (subtracts : Subtracts has_zone)
      (es : List TickDataEvent) (readable : AreReadable has_zone zoned es)
      (seen : Option (List ℕ)) where
    profile_of-IsProfile :
        (lo : ℕ) (bs : List ℕ)
        → blocks_of (times_of es []) ≡ lo ∷ bs
        → (p : QualityProfile F) × (profile_of parse seconds_to es seen (times_of es []) (lo ∷ bs)
            ≡ ok p)
          × IsProfile es p
    unfolding profile_of
    profile_of-IsProfile lo bs h =
        let protocol : TickDataEvent → Text = λ e. e.protocol in
        let event_type : TickDataEvent → Text = λ e. e.event_type in
        let (gaps, g, all, n) =
          gaps_from-HasGaps has_zone zoned subtracts es readable lo bs
            (blocks-IsSuffix has_zone zoned subtracts es readable lo bs h) in
        let rising : AreRising (lo ∷ bs) = subst AreRising h (blocks_of-AreRising es) in
        (
          filled es seen lo bs gaps,
          rw g refl,
          record {
            total = refl;
            protocols = λ name. omega (arith, number-tally protocol name es [], number-nil name);
            protocols_total = omega (arith, sum_of-tally protocol es []);
            event_types =
                λ name. omega (arith, number-tally event_type name es [], number-nil name);
            event_types_total = omega (arith, sum_of-tally event_type es []);
            range = λ c k.
                rising-range lo c bs rising
                  (listed has_zone zoned subtracts es readable lo c bs h ∙ k);
            fits = omega (arith, rising_fits lo bs rising);
            gaps = all;
            all_gaps = omega (arith, n);
          },
        )

    nonempty-IsProfile :
        (bs : List ℕ)
        → blocks_of (times_of es []) ≡ bs
        → (c : ℕ) → contains c (block_numbers es) ≡ true
        → (p : QualityProfile F) × (profile_of parse seconds_to es seen (times_of es []) bs ≡ ok p)
          × IsProfile es p
    unfolding contains
    nonempty-IsProfile [] h c k =
        let bad : contains c [] ≡ true = rw h at (contains-blocks_of c es ∙ k) in absurd (cc bad)
    nonempty-IsProfile (lo ∷ bs) h c k = profile_of-IsProfile lo bs h

  -- The profile of at least one event, all of whose timestamps can be read and all or none of which
  -- have a time zone, is computed without an exception, where two such times can be subtracted. Its tallies give every protocol and every event type the number of its events, and
  -- the numbers of each tally add up to the events; the block range covers every event, and
  -- has room for the blocks that are counted. There is a gap for each
  -- block but the first: its ends are blocks that rise, no event's block is between them,
  -- and its seconds are from the time of the first event of one to that of the first of the other.
  pub profile-IsProfile :
      (has_zone : T → Bool) (zoned : Bool) (e : TickDataEvent) (es : List TickDataEvent)
      (seen : Option (List ℕ))
      → Subtracts has_zone
      → AreReadable has_zone zoned (e ∷ es)
      → (p : QualityProfile F) × (profile parse seconds_to (e ∷ es) seen ≡ ok p)
        × IsProfile (e ∷ es) p
  unfolding profile contains
  profile-IsProfile has_zone zoned e es seen subtracts readable =
      nonempty-IsProfile has_zone zoned subtracts (e ∷ es) readable seen
        (blocks_of (times_of (e ∷ es) [])) refl e.block_number
        (ground (arith, ==_iff e.block_number e.block_number))
