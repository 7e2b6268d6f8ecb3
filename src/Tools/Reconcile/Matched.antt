-- ===== src/Tools/Reconcile/Matched.antt =====
-- What the reconciliation counts.
use ai_quantum.Common.Text.{text_eq, lower}
use ai_quantum.Common.{
  ap₂, ℕ, ◌+◌, ◌==◌, ◌≡◌, refl, ap, sym, ◌∙◌, inl, inr, Bool, false, ◌&&◌, ◌||◌, Bool-cases,
  if◌then◌else◌, List, [], ◌∷◌, ◌++◌, map, length, arith,
}
use ai_quantum.Common.Eq.{eqb}
use ai_quantum.Common.Dict.{get, put, get-put}
use ai_quantum.Common.Set.{contains-of_list, contains, IsUnique}
use ai_quantum.Common.Float.{Float}
use ai_quantum.Ingestion.Event.{TickDataEvent}
use ai_quantum.Tools.VerifyFixtures.{key_eq, RowKey, key_instance}
use ai_quantum.Tools.Reconcile.{
  ReconcileResult, block_instance, Chain, event_key, norm, norm_eq, in_sample, index, onchain,
  is_match, compare_all, result_of, reconcile,
}

-- An event of the chain with the key and the fields of the buffer's.
unfoldable indexed_twin : List TickDataEvent → TickDataEvent → Bool
indexed_twin [] e = false
indexed_twin (oe ∷ oes) e =
    (eqb (event_key oe) (event_key e) && norm_eq (norm oe) (norm e)) || indexed_twin oes e

unfoldable indexed_twins : List TickDataEvent → List TickDataEvent → ℕ
unfolding indexed_twin
indexed_twins chain [] = 0
indexed_twins chain (e ∷ es) = (if indexed_twin chain e then 1 else 0) + indexed_twins chain es

-- All that is fetched.
abbrev pub fetched : (ℕ → List TickDataEvent) → List ℕ → List TickDataEvent
fetched fetch [] = []
fetched fetch (b ∷ bs) = fetch b ++ fetched fetch bs

abbrev pub keys_of : List TickDataEvent → List RowKey
keys_of = map event_key

pub index-append :
    (d : Chain) (xs ys : List TickDataEvent) → index d (xs ++ ys) ≡ index (index d xs) ys
unfolding index
index-append d [] ys = refl
index-append d (x ∷ xs) ys = index-append (put (event_key x) x d) xs ys

onchain-fetched :
    (fetch : ℕ → List TickDataEvent) (d : Chain) (bs : List ℕ)
    → onchain fetch d bs ≡ index d (fetched fetch bs)
unfolding onchain index
onchain-fetched fetch d [] = refl
onchain-fetched fetch d (b ∷ bs) =
    onchain-fetched fetch (index d (fetch b)) bs ∙ sym (index-append d (fetch b) (fetched fetch bs))

indexed_twin-contains :
    (xs : List TickDataEvent) (e : TickDataEvent)
    → contains (event_key e) (keys_of xs) ≡ false
    → indexed_twin xs e ≡ false
unfolding indexed_twin contains
indexed_twin-contains [] e h = refl
indexed_twin-contains (x ∷ xs) e h = ground (arith, indexed_twin-contains xs e)

-- Looking an event up in the index is looking for its twin.
is_match-index :
    (d : Chain) (xs : List TickDataEvent) (e : TickDataEvent)
    → IsUnique (keys_of xs)
    → is_match e (get (event_key e) (index d xs)) ≡ (
        if contains (event_key e) (keys_of xs)
        then indexed_twin xs e
        else is_match e (get (event_key e) d))
unfolding index contains indexed_twin
is_match-index d [] e u = refl
is_match-index d (x ∷ xs) e u =
    let ih = is_match-index (put (event_key x) x d) xs e u.1 in
    let looked = ap (is_match e) (get-put (event_key x) (event_key e) x d) in
    let i = key_instance.are_same_iff (event_key x) (event_key e) in
    elim (Bool-cases (eqb (event_key x) (event_key e))) [
      | inl same ↦
          let k : event_key x ≡ event_key e = i.0 same in
          let fresh : contains (event_key e) (keys_of xs) ≡ false = rw k at u.0 in
          let hit : is_match e (get (event_key e) (put (event_key x) x d))
              ≡ norm_eq (norm x) (norm e) =
            rw same at looked in
          let lone = indexed_twin-contains xs e fresh in ground (arith, ih, fresh, hit, lone, same)
      | inr other ↦
          let miss : is_match e (get (event_key e) (put (event_key x) x d))
              ≡ is_match e (get (event_key e) d) =
            rw other at looked in
          ground (arith, ih, miss, other)
    ]

twin_matches :
    (xs : List TickDataEvent) (e : TickDataEvent)
    → IsUnique (keys_of xs)
    → is_match e (get (event_key e) (index [] xs)) ≡ indexed_twin xs e
unfolding get
twin_matches xs e u = elim (Bool-cases (contains (event_key e) (keys_of xs))) [
  | inl there ↦ is_match-index [] xs e u ∙ rw there refl
  | inr absent ↦ is_match-index [] xs e u ∙ rw absent (sym (indexed_twin-contains xs e absent))
]

compare_all-indexed_twins :
    (xs es : List TickDataEvent)
    → IsUnique (keys_of xs)
    → let out = compare_all (index [] xs) es in
      (out.0 ≡ indexed_twins xs es) × (out.0 + length out.1 ≡ length es)
unfolding compare_all indexed_twins
compare_all-indexed_twins xs [] u = (refl, omega arith)
compare_all-indexed_twins xs (e ∷ es) u =
    let (count, all) = compare_all-indexed_twins xs es u in
    let match = twin_matches xs e u in
    elim (Bool-cases (indexed_twin xs e)) [
      | inl twin ↦ rw (match ∙ twin) (rw twin (omega (arith, count), omega (arith, all)))
      | inr lone ↦ rw (match ∙ lone) (rw lone (omega (arith, count), omega (arith, all)))
    ]

-- The same event on the chain and in the buffer: the same transaction, up to case, and log index, and
-- the same type, pool, tokens and amounts, up to case.
abbrev pub are_same : TickDataEvent → TickDataEvent → Bool
are_same oe e =
    (text_eq (lower oe.tx_hash) (lower e.tx_hash) && oe.log_index == e.log_index)
    && (text_eq (lower oe.event_type) (lower e.event_type)
        && text_eq (lower oe.pool_address) (lower e.pool_address)
        && text_eq (lower oe.token0) (lower e.token0)
        && text_eq (lower oe.token1) (lower e.token1)
        && text_eq (lower oe.amount0) (lower e.amount0)
        && text_eq (lower oe.amount1) (lower e.amount1))

unfoldable pub has_twin : List TickDataEvent → TickDataEvent → Bool
has_twin [] e = false
has_twin (oe ∷ oes) e = are_same oe e || has_twin oes e

-- How many events of the second list have a twin in the first.
unfoldable pub twins : List TickDataEvent → List TickDataEvent → ℕ
unfolding has_twin
twins chain [] = 0
twins chain (e ∷ es) = (if has_twin chain e then 1 else 0) + twins chain es

-- The events in the blocks of a list.
unfoldable pub sampled : List ℕ → List TickDataEvent → List TickDataEvent
sampled sample [] = []
sampled sample (e ∷ es) =
    let rest = sampled sample es in if contains e.block_number sample then e ∷ rest else rest

indexed_twin-has_twin :
    (xs : List TickDataEvent) (e : TickDataEvent) → indexed_twin xs e ≡ has_twin xs e
unfolding indexed_twin has_twin event_key norm norm_eq key_eq
indexed_twin-has_twin [] e = refl
indexed_twin-has_twin (x ∷ xs) e = ap (λ (b : Bool). are_same x e || b) (indexed_twin-has_twin xs e)

indexed_twins-twins : (xs es : List TickDataEvent) → indexed_twins xs es ≡ twins xs es
unfolding indexed_twins twins
indexed_twins-twins xs [] = refl
indexed_twins-twins xs (e ∷ es) =
    ap₂ (λ (b : Bool) (n : ℕ). (if b then 1 else 0) + n) (indexed_twin-has_twin xs e)
      (indexed_twins-twins xs es)

pub in_sample-sampled :
    (sample : List ℕ) (es : List TickDataEvent) → in_sample sample es ≡ sampled sample es
unfolding in_sample sampled
in_sample-sampled sample [] = refl
in_sample-sampled sample (e ∷ es) =
    ap₂ (λ (b : Bool) (rest : List TickDataEvent). if b then e ∷ rest else rest)
      (contains-of_list e.block_number sample) (in_sample-sampled sample es)

pub compare_all-twins :
    (xs es : List TickDataEvent)
    → IsUnique (keys_of xs)
    → let out = compare_all (index [] xs) es in
      (out.0 ≡ twins xs es) × (out.0 + length out.1 ≡ length es)
compare_all-twins xs es u =
    let (count, all) = compare_all-indexed_twins xs es u in (count ∙ indexed_twins-twins xs es, all)

-- What the result has to say of the buffer's events in the sample and the chain's.
pub record IsReconciled {F : Type 0} ⦃f : Float F⦄ (gate : F) (buf chain : List TickDataEvent)
    (r : ReconcileResult gate) : Type 0 where
  pub matched : r.matched ≡ twins chain buf
  pub total : r.total ≡ length buf
  pub every : r.matched + length r.mismatches ≡ r.total
  pub verdict :
      (r.total == 0) ≡ false
      → r.ok ≡ f.le gate (f.div (f.of_ℕ (twins chain buf)) (f.of_ℕ (length buf)))
  pub not_empty : (r.total == 0 && r.ok) ≡ false

result_of-IsReconciled :
    {F : Type 0} ⦃f : Float F⦄ (gate : F) (buf xs : List TickDataEvent)
    → IsUnique (keys_of xs)
    → f.le gate (f.of_ℕ 0) ≡ false
    → IsReconciled gate buf xs (result_of gate buf (index [] xs))
unfolding result_of
result_of-IsReconciled gate buf xs u zero =
    let (count, all) = compare_all-twins xs buf u in
    record {
      matched = count;
      total = refl;
      every = all;
      verdict = λ some_event. rw (count, some_event) refl;
      not_empty = elim (Bool-cases (length buf == 0)) [
        | inl empty ↦ rw empty zero
        | inr more ↦ rw more refl
      ];
    }

-- Reconciling counts what it says: if no key is fetched twice from the chain, then the matched
-- events are exactly the buffer's events in the sampled blocks that have a twin on the chain, with
-- the same transaction and log index and the same six fields up to case; every other one is a
-- mismatch; the total is the number of them all, the verdict compares the quotient of the two
-- numbers with the gate, and an empty buffer does not pass, where the gate is above zero.
pub reconcile_lem :
    {F : Type 0} ⦃f : Float F⦄ (gate : F) (events : List TickDataEvent) (sample : List ℕ)
    (fetch : ℕ → List TickDataEvent)
    → IsUnique (keys_of (fetched fetch sample))
    → f.le gate (f.of_ℕ 0) ≡ false
    → IsReconciled gate
        (sampled sample events)
        (fetched fetch sample)
        (reconcile gate events sample fetch)
unfolding reconcile
reconcile_lem gate events sample fetch u zero =
    rw (onchain-fetched fetch [] sample, in_sample-sampled sample events, reconcile)
      (result_of-IsReconciled gate (sampled sample events) (fetched fetch sample) u zero)
