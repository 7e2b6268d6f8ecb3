-- ===== src/Lib.antt =====
-- QuantumRadar: a verification library for the ingestion, scoring and alerting code of the
-- repository.
--
-- The program watches DeFi contracts. A WebSocket client, or a mock server that replays fixtures,
-- delivers raw logs; a router looks up a log's contract in a whitelist and has it decoded to a
-- `TickDataEvent`; events go to a ring buffer; a detector in a process of its own scores windows of
-- them; and an alert goes to the subscribers' webhooks if the score reaches a band.
--
-- Files and code. Definitions have the source's names, in antt's spelling.
--   Core/RingBuffer       core/ring_buffer.py: the buffers as records, each method a function, and
--                         the asyncio lock as a step relation computed by `step`
--   Core/Snapshot         core/schemas/__init__.py (validate_graph_snapshot) and the records of
--                         engine/graph/node_types.py and edge_types.py
--   Ingestion/Event       the dataclass of ingestion/decoders/uniswap_v3.py
--   Ingestion/Decoders    ingestion/decoders/uniswap_v3.py and aave_v3.py
--   Ingestion/Whitelist   ingestion/whitelist.py
--   Ingestion/Router      ingestion/router.py
--   Ingestion/Reconnect   ingestion/reconnect.py
--   Ingestion/CsvLoader   ingestion/csv_loader.py, and run_backtest of ingestion/pipeline.py
--   Ingestion/Client      ingestion/config.py and client.py
--   Ingestion/Streams     ingestion/streams.py: the generator as a function of the socket's messages
--   Ingestion/Pipeline    the loop of run_realtime in ingestion/pipeline.py
--   Engine/Baseline       engine/baseline.py
--   Engine/Runner         engine/runner.py: the queue's two ends, with the worker's progress between
--                         two operations as an argument
--   Engine/Graph          engine/graph/builder.py: the dictionaries, Edges, and Builder for the rest
--   Engine/Features       engine/tensor/features.py
--   Engine/Adjacency      engine/tensor/adjacency.py and sparse.py (Storage for its sizes)
--   Engine/Normalize      engine/tensor/normalize.py
--   Engine/Mps            engine/mps/truncation.py (Truncation) and naive.py (Naive)
--   Emitter/Payload, Webhook, Pipeline, Registry, Api
--                         emitter/payload.py, webhook.py, pipeline.py, registry.py, api.py
--   Tools/MockWss         tools/mock_wss/replay.py (Scenario, Fixture, Speed, RawLog,
--                         Blocks) and server.py (Server, and Replay for its loop)
--   Tools/ExtractFixtures tools/extract_fixtures.py: Etherscan (the client), Decoding, Fetch,
--                         and Main for the files that are written
--   Tools/VerifyFixtures  tools/verify_fixtures.py: the quality gate, OnChain, and Main
--   Tools/Dotenv          the loader of the environment file in tools/extract_fixtures.py
--   Tools/ProfileQuality  tools/profile_quality.py (profile)
--   Tools/Reconcile       tools/reconcile_etherscan.py: the comparison, and Fetcher for the fetch
--                         from the API and the exit status
--   Common                texts, hexadecimal and decimal numbers, dictionaries, sets, floats and the
--                         lemmas on lists that the others share
--
-- Numbers. Python's unbounded integers are ℕ or ℤ. Floats are an interface, `Common.Float`; the
-- facts of IEEE arithmetic that a theorem needs are a record of named laws, which integers that
-- count sixteenths meet. Texts are lists of code points.
--
-- Fuel. The retry loop of `auto_reconnect` runs on 1025 units, and its theorem shows that it always
-- ends before they are used up. The bisection of `etherscan_get_logs` runs on as many units as there
-- are blocks in the range; each half has fewer, and the theorem on it has no case for lack of fuel.
-- Every other loop is structural.
--
-- Parameters. The ABI codec, the calendar, the JSON Schema validator, the clock, the transport of
-- the webhooks, the hash of a block number, torch's operations, networkx, `math.exp`, the
-- YAML parser, the csv module and the Etherscan API are arguments.
--
-- Not modelled: sockets, processes, files beyond their content, pauses between calls, logging, the
-- texts of reports, and the HTTP framework, of which tools/mock_wss/health.py and __main__.py,
-- tools/visualize.py, tools/webhook_echo.py and scripts/validate_payload.py consist; the gauges of
-- ingestion/metrics.py; and the scripts under _bmad, which belong to another project.
pub mod Common
pub mod Core
pub mod Ingestion
pub mod Engine
pub mod Emitter
pub mod Tools
