-- ===== src/Tools/VerifyFixtures/Quality.antt =====
-- The fixtures that pass the gate.
use ai_quantum.Common.{
  ℕ, ◌+◌, ◌≤◌, ◌≡◌, ◌↔◌, refl, subst, inl, inr, true, false, Bool, List, [], ◌∷◌, map, length, none,
  Option-cases, ok, err, Outcome-cases, arith,
}
use ai_quantum.Common.Int.{ℤ, pos, negsuc, ltb_ℤ}
use ai_quantum.Common.Text.{Text}
use ai_quantum.Common.Eq.{text_eq_instance}
use ai_quantum.Common.Set.{contains, add, IsUnique}
use ai_quantum.Ingestion.Event.{TickDataEvent}
use ai_quantum.Tools.MockWss.Fixture.{Raw, cast_row}
use ai_quantum.Tools.MockWss.Fixture.Loaded.{AreCast}
use ai_quantum.Tools.MockWss.Blocks.Grouping.{IsSortedFrom}
use ai_quantum.Tools.VerifyFixtures.{
  RowKey, key, key_instance, VerifyError, check_row, check_rows, keep, unless, enough, verify_file,
  Checked,
}
use ai_quantum.Tools.VerifyFixtures.Counting.{
  IsFresh, IsFresh-IsUnique, IsApart-nil, HasThree, types_of, types_after, three_types, IsAmount,
  IsAmount-is_missing,
}

abbrev pub keys_of : List TickDataEvent → List RowKey
keys_of = map key

-- No row's block is before that of the row in front of it.
abbrev AreOrdered : ℤ → List TickDataEvent → Type 0
AreOrdered prev [] = Unit
AreOrdered prev (r ∷ rs) =
    (ltb_ℤ (pos r.block_number) prev ≡ false) × AreOrdered (pos r.block_number) rs

AreOrdered-IsSortedFrom :
    (n : ℕ) (rs : List TickDataEvent) → AreOrdered (pos n) rs ↔ IsSortedFrom n rs
AreOrdered-IsSortedFrom n [] = (λ h. tt, λ h. tt)
AreOrdered-IsSortedFrom n (r ∷ rs) =
    let ih = AreOrdered-IsSortedFrom r.block_number rs in
    (λ h. (ground (arith, h.0), ih.0 h.1), λ h. (ground (arith, h.0), ih.1 h.1))

AreOrdered-first : (rs : List TickDataEvent) → AreOrdered (negsuc 0) rs ↔ IsSortedFrom 0 rs
AreOrdered-first [] = (λ h. tt, λ h. tt)
AreOrdered-first (r ∷ rs) =
    let ih = AreOrdered-IsSortedFrom r.block_number rs in
    (λ h. (omega arith, ih.0 h.1), λ h. (ground arith, ih.1 h.1))

module _ (valid : TickDataEvent → Bool) where
  -- The schema accepts the row, and both amounts say something.
  pub record IsSound (row : TickDataEvent) : Type 0 where
    pub schema : valid row ≡ true
    pub first : IsAmount row.amount0
    pub second : IsAmount row.amount1

  abbrev pub AreSound : List TickDataEvent → Type 0
  AreSound [] = Unit
  AreSound (r ∷ rs) = IsSound r × AreSound rs

  -- What AC2 asks of a fixture.
  pub record IsGood (rows : List TickDataEvent) : Type 0 where
    pub sound : AreSound rows
    pub sorted : IsSortedFrom 0 rows
    pub unique : IsUnique (keys_of rows)
    pub many : 1000 ≤ length rows
    pub varied : HasThree (types_of rows)

  -- The checks passed, row after row.
  abbrev Passes : ℤ → List RowKey → List TickDataEvent → Type 0
  Passes prev seen [] = Unit
  Passes prev seen (r ∷ rs) =
      (check_row valid prev seen r ≡ none) × Passes (pos r.block_number) (add (key r) seen) rs

  check_row-none :
      (prev : ℤ) (seen : List RowKey) (r : TickDataEvent)
      → (check_row valid prev seen r ≡ none)
        ↔ (IsSound r × (ltb_ℤ (pos r.block_number) prev ≡ false) × (contains (key r) seen ≡ false))
  unfolding check_row
  check_row-none prev seen r =
      let a = IsAmount-is_missing r.amount0 in
      let b = IsAmount-is_missing r.amount1 in
      (
        λ h. (
          record { schema = ground arith; first = a.0 (ground arith); second = b.0 (ground arith) },
          ground arith,
          ground arith,
        ),
        λ h. let (s, o, f) = h in ground (arith, s.schema, o, f, a.1 s.first, b.1 s.second),
      )

  Passes-parts :
      (prev : ℤ) (seen : List RowKey) (rs : List TickDataEvent)
      → Passes prev seen rs ↔ (AreSound rs × AreOrdered prev rs × IsFresh seen (keys_of rs))
  Passes-parts prev seen [] = (λ h. (tt, tt, tt), λ h. tt)
  Passes-parts prev seen (r ∷ rs) =
      let one = check_row-none prev seen r in
      let ih = Passes-parts (pos r.block_number) (add (key r) seen) rs in
      (
        λ h.
            let (s, o, f) = one.0 h.0 in let (ss, os, fs) = ih.0 h.1 in ((s, ss), (o, os), (f, fs)),
        λ h. let ((s, ss), (o, os), (f, fs)) = h in (one.1 (s, o, f), ih.1 (ss, os, fs)),
      )

  -- What the loop returns: the rows, if they pass, and the types after them.
  abbrev Returns : ℤ → List RowKey → List Text → List Raw → List TickDataEvent × List Text → Type 0
  Returns prev seen types raws p =
      AreCast raws p.0 × Passes prev seen p.0 × (p.1 ≡ types_after types p.0)

  Returns-keep :
      (prev : ℤ) (seen : List RowKey) (types : List Text) (raw : Raw) (raws : List Raw)
      (row : TickDataEvent) (rest : Checked valid) (p : List TickDataEvent × List Text)
      → cast_row raw ≡ ok row
      → check_row valid prev seen row ≡ none
      → ((q : List TickDataEvent × List Text)
          → rest ≡ ok q
          → Returns (pos row.block_number) (add (key row) seen) (add row.event_type types) raws q)
      → keep valid row rest ≡ ok p
      → Returns prev seen types (raw ∷ raws) p
  Returns-keep prev seen types raw raws row (err e) p c k ih h = cc h
  Returns-keep prev seen types raw raws row (ok (rs, t)) p c k ih h =
      let (a, b, d) = ih (rs, t) refl in
      let same : (row ∷ rs, t) ≡ p = cc h in
      subst (Returns prev seen types (raw ∷ raws)) same ((c, a), (k, b), d)

  check_rows-Returns :
      (prev : ℤ) (seen : List RowKey) (types : List Text) (idx : ℕ) (raws : List Raw)
      (p : List TickDataEvent × List Text)
      → check_rows valid prev seen types idx raws ≡ ok p
      → Returns prev seen types raws p
  unfolding check_rows
  check_rows-Returns prev seen types idx [] p h =
      let same : ([], types) ≡ p = cc h in subst (Returns prev seen types []) same (tt, tt, refl)
  check_rows-Returns prev seen types idx (raw ∷ raws) p h = elim (Outcome-cases (cast_row raw)) [
    | inl (c, e) ↦
        let bad : err (VerifyError.invalid_integer idx c) ≡ ok p = rw (e, check_rows) at h in cc bad
    | inr (row, e) ↦
        let rest =
          check_rows valid (pos row.block_number) (add (key row) seen) (add row.event_type types)
            (idx + 1) raws in
        let h' : unless valid idx (check_row valid prev seen row) (keep valid row rest) ≡ ok p =
          rw (e, check_rows) at h in
        elim (Option-cases (check_row valid prev seen row)) [
          | inr (v, k) ↦ let bad : err (VerifyError.bad_row idx v) ≡ ok p = rw k at h' in cc bad
          | inl k ↦
              Returns-keep prev seen types raw raws row rest p e k
                (check_rows-Returns (pos row.block_number) (add (key row) seen)
                  (add row.event_type types) (idx + 1) raws)
                (rw k at h')
        ]
  ]

  Passes-check_rows :
      (prev : ℤ) (seen : List RowKey) (types : List Text) (idx : ℕ) (raws : List Raw)
      (rows : List TickDataEvent)
      → AreCast raws rows
      → Passes prev seen rows
      → check_rows valid prev seen types idx raws ≡ ok (rows, types_after types rows)
  unfolding check_rows
  Passes-check_rows prev seen types idx [] [] a b = refl
  Passes-check_rows prev seen types idx [] (r ∷ rs) a b = absurd a
  Passes-check_rows prev seen types idx (raw ∷ raws) [] a b = absurd a
  Passes-check_rows prev seen types idx (raw ∷ raws) (r ∷ rs) a b =
      rw
        (
          a.0,
          b.0,
          Passes-check_rows (pos r.block_number) (add (key r) seen) (add r.event_type types)
              (idx + 1) raws rs a.1 b.1,
          check_rows,
        )
        refl

  Passes-IsGood :
      (rows : List TickDataEvent)
      → (Passes (negsuc 0) [] rows × (1000 ≤ length rows) × (3 ≤ length (types_after [] rows)))
        ↔ IsGood rows
  Passes-IsGood rows =
      let parts = Passes-parts (negsuc 0) [] rows in
      let order = AreOrdered-first rows in
      let fresh = IsFresh-IsUnique [] (keys_of rows) in
      let types = three_types rows in
      (
        λ h.
            let (p, m, t) = h in
            let (s, o, f) = parts.0 p in
            record {
              sound = s;
              sorted = order.0 o;
              unique = (fresh.0 f).1;
              many = m;
              varied = types.0 t;
            },
        λ g. (
          parts.1 (g.sound, order.1 g.sorted, fresh.1 (IsApart-nil (keys_of rows), g.unique)),
          g.many,
          types.1 g.varied,
        ),
      )

  enough-ok :
      (p : List TickDataEvent × List Text) (rows : List TickDataEvent)
      → enough valid p ≡ ok rows
      → (p.0 ≡ rows) × (1000 ≤ length p.0) × (3 ≤ length p.1)
  enough-ok (rs, ts) rows h = (ground (arith, h), ground (arith, h), ground (arith, h))

  -- A fixture passes the gate, and the rows are given back, exactly if each of its lines has its two
  -- integers and the rows are good: the schema accepts each and neither of its amounts is empty or
  -- a NaN in any case, the blocks never decrease, no transaction and log index occur
  -- twice, there are 1000 rows or more, and three different event types occur among them.
  pub verify_file-IsGood :
      (raws : List Raw) (rows : List TickDataEvent)
      → (verify_file valid raws ≡ ok rows) ↔ (AreCast raws rows × IsGood rows)
  unfolding verify_file
  verify_file-IsGood raws rows =
      let good = Passes-IsGood rows in
      (
        λ h. elim (Outcome-cases (check_rows valid (negsuc 0) [] [] 0 raws)) [
          | inl (e, k) ↦ let bad : err e ≡ ok rows = rw k at h in cc bad
          | inr (p, k) ↦
              let (a, b, t) = check_rows-Returns (negsuc 0) [] [] 0 raws p k in
              let (same, m, v) = enough-ok p rows (rw k at h) in
              (
                subst (AreCast raws) same a,
                subst IsGood same ((Passes-IsGood p.0).0 (b, m, subst (λ ts. 3 ≤ length ts) t v)),
              )
        ],
        λ g.
            let (p, m, t) = good.1 g.1 in
            rw (Passes-check_rows (negsuc 0) [] [] 0 raws rows g.0 p) (ground arith),
      )
