-- ===== src/Tools/MockWss/RoundTrip.antt =====
-- The mock server's raw logs, read back by the router and the decoders.
use ai_quantum.Common.{
  Option, ℕ, ◌≡◌, ◌⊎◌, refl, ◌∙◌, ap, Bool, List, ◌++◌, some, ok, err, arith, Option-cases, inl,
  inr, subst,
}
use ai_quantum.Common.Int.{ℤ}
use ai_quantum.Common.Text.{
  Text, codes, text_eq, text_eq_iff, lower, starts_with, removeprefix-append, starts_with-append,
  lower_idem,
}
use ai_quantum.Common.Text.Hex.{hex, fromhex-hex, AreBytes}
use ai_quantum.Common.Text.Number.{int_of, str_int, hex_int, read_digits-print}
use ai_quantum.Ingestion.Event.{TickDataEvent, swap, mint, burn, uniswap_v3}
use ai_quantum.Ingestion.Whitelist.{ContractWhitelist, WhitelistEntry, PoolMeta, find}
use ai_quantum.Ingestion.Decoders.{
  str, text, Log, Abi, AbiLaws, with_0x, normalize, tx_hash_of, to_data_bytes, to_int, topic_at,
  number_at, from_option,
}
use ai_quantum.Ingestion.Decoders.Uniswap
use ai_quantum.Ingestion.Decoders.Uniswap.{
  Amounts, swap_types, mint_types, burn_types, swap_topic, mint_topic, burn_topic, amounts_of,
  amounts_at,
}
use ai_quantum.Ingestion.Router.{route, log_address, some_event}
use ai_quantum.Tools.MockWss.RawLog.{
  topic0_of, encode_event, raw_log, encode_row, build_raw_log, assemble, cannot_encode,
}

-- The fields of a raw log read back.
to_int-hex_int : (n : ℕ) → to_int (text (hex_int n)) ≡ ok n
unfolding to_int hex_int
to_int-hex_int n =
    rw (starts_with-append (codes "0x") _, removeprefix-append (codes "0x") _)
      (rw (read_digits-print 16 n (omega arith) (omega arith)))

to_data_bytes-hex : (b : List ℕ) → AreBytes b → to_data_bytes (str (codes "0x" ++ hex b)) ≡ ok b
unfolding to_data_bytes
to_data_bytes-hex b h = rw (removeprefix-append (codes "0x") (hex b), fromhex-hex b h)

module _ (abi : Abi) (laws : AbiLaws abi) (ts_to_iso : ℕ → Option Text) where
  -- The event that comes back: the row with its hexadecimal text in the decoders' form.
  abbrev pub swapped_back : TickDataEvent → ℤ → ℤ → PoolMeta → Text → TickDataEvent
  swapped_back row a₀ a₁ pool_meta time = record {
    block_number = row.block_number;
    block_timestamp = time;
    protocol = uniswap_v3;
    event_type = row.event_type;
    pool_address = with_0x (lower row.pool_address);
    token0 = lower pool_meta.token0;
    token1 = lower pool_meta.token1;
    amount0 = str_int a₀;
    amount1 = str_int a₁;
    tx_hash = with_0x row.tx_hash;
    log_index = row.log_index;
  }

  decode-raw_log :
      (row : TickDataEvent) (a₀ a₁ : ℤ) (tail : List Text) (payload : List ℕ) (pool_meta : PoolMeta)
      (ts : ℕ) (time : Text)
      → ts_to_iso ts ≡ some time
      → AreBytes payload
      → amounts_of abi ts_to_iso (normalize (str (topic0_of row.event_type))) payload
        ≡ ok (record { event_type = row.event_type; amount0 = a₀; amount1 = a₁ })
      → Uniswap.decode abi ts_to_iso (raw_log row tail payload) pool_meta ts
        ≡ ok (swapped_back row a₀ a₁ pool_meta time)
  unfolding Uniswap.decode normalize tx_hash_of topic_at from_option
  decode-raw_log row a₀ a₁ tail payload pool_meta ts time t h e =
      rw (to_data_bytes-hex payload h, Uniswap.decode)
        (rw (e, Uniswap.decode)
          (rw (to_int-hex_int row.block_number, Uniswap.decode)
            (rw (t, to_int-hex_int row.log_index))))

  -- A pool event is one of the three kinds of Uniswap.
  abbrev pub IsPoolEvent : Text → Type 0
  IsPoolEvent t = (t ≡ swap) ⊎ ((t ≡ mint) ⊎ (t ≡ burn))

  abbrev Reads : Text → Type 0
  Reads t =
      (a₀ a₁ : ℤ) (token0 token1 : Text) (payload : List ℕ)
      → abi.encode (encode_event t a₀ a₁ token0 token1).types
          (encode_event t a₀ a₁ token0 token1).values
        ≡ some payload
      → amounts_of abi ts_to_iso (normalize (str (topic0_of t))) payload
        ≡ ok (record { event_type = t; amount0 = a₀; amount1 = a₁ })

  branch_swap :
      (payload : List ℕ)
      → amounts_of abi ts_to_iso (normalize (str (topic0_of swap))) payload
        ≡ amounts_at abi ts_to_iso swap swap_types 0 1 payload
  unfolding amounts_of normalize starts_with topic0_of text_eq swap mint burn swap_topic mint_topic
      burn_topic from_option lower
  branch_swap payload = refl

  branch_mint :
      (payload : List ℕ)
      → amounts_of abi ts_to_iso (normalize (str (topic0_of mint))) payload
        ≡ amounts_at abi ts_to_iso mint mint_types 2 3 payload
  unfolding amounts_of normalize starts_with topic0_of text_eq swap mint burn swap_topic mint_topic
      burn_topic from_option lower
  branch_mint payload = refl

  branch_burn :
      (payload : List ℕ)
      → amounts_of abi ts_to_iso (normalize (str (topic0_of burn))) payload
        ≡ amounts_at abi ts_to_iso burn burn_types 1 2 payload
  unfolding amounts_of normalize starts_with topic0_of text_eq swap mint burn swap_topic mint_topic
      burn_topic from_option lower
  branch_burn payload = refl

  Reads-swap : Reads swap
  unfolding encode_event amounts_at text_eq swap number_at from_option
  Reads-swap a₀ a₁ token0 token1 payload h =
      branch_swap payload ∙ rw (laws.decode-encode _ _ payload h)

  Reads-mint : Reads mint
  unfolding encode_event amounts_at text_eq swap mint number_at from_option
  Reads-mint a₀ a₁ token0 token1 payload h =
      branch_mint payload ∙ rw (laws.decode-encode _ _ payload h)

  Reads-burn : Reads burn
  unfolding encode_event amounts_at text_eq swap mint burn number_at from_option
  Reads-burn a₀ a₁ token0 token1 payload h =
      branch_burn payload ∙ rw (laws.decode-encode _ _ payload h)

  Reads-IsPoolEvent : (t : Text) → IsPoolEvent t → Reads t
  Reads-IsPoolEvent t (inl e) = rw e Reads-swap
  Reads-IsPoolEvent t (inr (inl e)) = rw e Reads-mint
  Reads-IsPoolEvent t (inr (inr e)) = rw e Reads-burn

  -- A log that was built is that of an encoding.
  built_from :
      (row : TickDataEvent) (log : Log) (a₀ a₁ : ℤ)
      → int_of row.amount0 ≡ some a₀
      → int_of row.amount1 ≡ some a₁
      → build_raw_log abi row ≡ ok log
      → let e = encode_event row.event_type a₀ a₁ row.token0 row.token1 in
        (payload : List ℕ) × (abi.encode e.types e.values ≡ some payload)
        × (raw_log row e.tail payload ≡ log)
  unfolding build_raw_log encode_row
  built_from row log a₀ a₁ i₀ i₁ h =
      let e = encode_event row.event_type a₀ a₁ row.token0 row.token1 in
      let built : assemble abi row e (abi.encode e.types e.values) ≡ ok log =
        rw (i₀, i₁, build_raw_log) at h in
      elim (Option-cases (abi.encode e.types e.values)) [
        | inl fails ↦ let bad : err cannot_encode ≡ ok log = rw fails at built in cc
        | inr (payload, enc) ↦
            let good : ok (raw_log row e.tail payload) ≡ ok log = rw enc at built in
            (payload, enc, cc)
      ]

  module _ (valid : TickDataEvent → Bool) (w : ContractWhitelist) where
    route-raw_log :
        (row : TickDataEvent) (tail : List Text) (payload : List ℕ) (entry : WhitelistEntry)
        (ts : ℕ)
        → find w row.pool_address ≡ some entry
        → entry.protocol ≡ uniswap_v3
        → route abi ts_to_iso valid w (raw_log row tail payload) ts
          ≡ some_event (Uniswap.decode abi ts_to_iso (raw_log row tail payload) entry.pool_meta ts)
    unfolding route log_address find
    route-raw_log row tail payload entry ts h k =
        let same : find w (lower row.pool_address) ≡ some entry =
          rw (lower_idem row.pool_address) h in
        rw (same, route) (rw (k, (text_eq_iff uniswap_v3 uniswap_v3).1 refl))

    -- Replay and ingestion agree on pool events: if the mock server can build a log from a fixture
    -- row of a swap, a mint or a burn with decimal amounts, the row's pool is a whitelisted
    -- Uniswap pool, and the timestamp of the call is in the calendar's range, then the router decodes that log to the row's own event, where the tokens are
    -- the whitelist's, the timestamp is that of the call, the amounts are printed anew, and the
    -- address and the hash have the form that the decoders give them.
    pub route-build_raw_log :
        (row : TickDataEvent) (log : Log) (a₀ a₁ : ℤ) (entry : WhitelistEntry) (ts : ℕ)
        (time : Text)
        → ts_to_iso ts ≡ some time
        → IsPoolEvent row.event_type
        → int_of row.amount0 ≡ some a₀
        → int_of row.amount1 ≡ some a₁
        → find w row.pool_address ≡ some entry
        → entry.protocol ≡ uniswap_v3
        → build_raw_log abi row ≡ ok log
        → route abi ts_to_iso valid w log ts
          ≡ ok (some (swapped_back row a₀ a₁ entry.pool_meta time))
    route-build_raw_log row log a₀ a₁ entry ts time t kind i₀ i₁ h k built =
        let e = encode_event row.event_type a₀ a₁ row.token0 row.token1 in
        let (payload, enc, same) = built_from row log a₀ a₁ i₀ i₁ built in
        subst
          (λ (l : Log).
            route abi ts_to_iso valid w l ts
            ≡ ok (some (swapped_back row a₀ a₁ entry.pool_meta time)))
          same
          (route-raw_log row e.tail payload entry ts h k
            ∙ ap some_event (
                decode-raw_log row a₀ a₁ e.tail payload entry.pool_meta ts time t
                  (laws.encode-AreBytes e.types e.values payload enc)
                  (Reads-IsPoolEvent row.event_type kind a₀ a₁ row.token0 row.token1 payload enc)))
