-- ===== src/Lib.antt =====
-- KokoroKoe records meetings on the desktop: it captures sound from two sources, cuts it into
-- utterances, transcribes them with a local engine and asks a language model for insights, within a
-- budget. The files here model the parts of the Rust back end, src-tauri/src, that decide what is
-- kept, in which order, and what is paid for. A module is a file or a directory of files, named for
-- what it holds.
--
-- How the parts interact. `SourceProcessor` (Audio/Processing) turns the packets of a source into
-- chunks of samples, `VadSegmenter` (Audio/Vad) turns those into utterances and snapshots of the
-- utterance that is still open. `LiveFinalTranscriptionPipeline` (Transcription/Pipeline) takes
-- both, gives them job ids and hands them to `TranscriptionScheduler` (Transcription/Scheduler),
-- which orders final jobs, bounds the backlog and switches partial jobs off under load; `pump_one`
-- takes jobs back out and calls the engine. `LiveTranscriptionService` (Transcription/Product)
-- starts and stops such a run, one at a time. `build_prompt_context` (Prompts/Context) chooses what
-- a request to the language model shows, and `UsageBudgetService` (Llm/Budget) reserves the cost of
-- a request to the language model before it is sent and settles it afterwards.
-- `PersistedSessionWriter` (Persistence/SessionWriter) journals what was transcribed and decides
-- when the document and the search index follow. `TranscriptionRequest::validate`
-- (Transcription/Request) is what the segmenter and the scheduler agree on.
--
-- Which file models what.
--   Prelude: Boolean tests and lists on the native numbers, maps as association lists, results whose
--     errors carry a code, and the saturating and wrapping operations of 64-bit numbers.
--   Transcription/Request: transcription/model.rs, requests and their validation.
--   Transcription/Scheduler, Scheduler/Ops: transcription/scheduler.rs. A `Scheduler` has the
--     fields of the struct; `submit_final`, `submit_partial`, `next_job`, `next_final_job`,
--     `next_partial_job` and `discard_partials` are the methods, which return the changed scheduler
--     with their result. Scheduler/Cases splits them by branch; Accounts, Order, Mode and Identity
--     have the parts of the invariant that Invariant joins; Placement and Drain are about where a
--     job goes and what comes out.
--   Transcription/Pipeline: transcription/integration.rs. Frontier, Submit, Pump and Ops hold the
--     methods; `submit_snapshot` is `submit_partial` of the pipeline. Queue says what they do to
--     the scheduler, Invariant, Partials, Pumps and Steps are about the invariant, Moves names the
--     transitions of the state, Settled is about a pipeline that has come to rest, Pumped about
--     one call of `pump_one`, Cancel about `cancel_pending`.
--   Audio/Vad: audio/vad.rs. Frame is the work on one frame, Ops the calls. Sizes and Emitted bound
--     what is kept and say what is reported, Counts follows the frames, Following is
--     about the next chunk, Handoff about the requests that are made of utterances.
--   Prompts/Context: prompts/context.rs. Ops has `build_prompt_context` and what it calls; Unique
--     and Candidates are about the segments that it may show, Sorting and Selection about those
--     that it shows, Handoff about the ledger's tests of the result.
--   Domain/Session: domain/projects.rs, `create`, `validate` and `apply_runtime_state` of a session;
--     Lifecycle is about the sessions that these make. The tests of its other fields are one
--     parameter, since a change of state leaves those fields as they are.
--   Transcription/Product: transcription/product.rs and domain/transcription.rs. `publish_start` is
--     the end of `start_with_model`, `begin_stop` the start of `stop`; Held says who holds the
--     product, Sections and Runs follow it through the sections of any callers, Outcomes is about
--     what a caller is told. Bridge has
--     `bridge_events`, up to the envelopes that are made of its payloads.
--   Transcription/Fallback: transcription/fallback.rs, an engine made of two.
--   Llm/Retry: llm/retry.rs, the attempts of `complete_with_retry`; Retry/Sent is about what is
--     sent.
--   Audio/Processing: audio/processing.rs. Ops has `SourceProcessor` and the pipeline of a format,
--     whose `push` is `push_mono`, and whose loops are `resample` and `cut`; Draining and Chunks
--     are about the loops, Following about the chunks in the segmenter.
--   Llm/Budget: llm/budget.rs. Money has the checked amounts and their text, Parse the parsers, Ops
--     `reserve`, Settle `reconcile` and `release`. Ledger is the invariant, Reserve, Settlement,
--     Outcomes and History follow it along calls, Undo is about a release after a reservation,
--     Digits and Prices about the reading of prices.
--   Persistence/SessionWriter: persistence/session_writer.rs. Ops has the calls, `open` as
--     `open_writer`; Invariant is about what each call keeps, Waiting about how long segments wait.
--   The Tests file of each part runs it on small inputs.
--
-- Numbers, bounds and fuel. Numbers are natural; an operation of fixed width is written with its
-- wrap-around or its saturation. Amounts of money are whole multiples of 10^-12 USD and fail beyond
-- u128. The loop of `push` has as much fuel as the samples have whole frames, and each turn takes
-- one frame, so what is left is less than a frame. The loop of `cancel_pending` has one turn for
-- each queued job. The loop over attempts has three turns, that of the resampler one more than
-- there are samples, each of which a turn consumes, and that of chunks one for each whole chunk.
-- `print` has forty digits, which hold every u128.
--
-- What is a parameter. Samples are of any type with the two tests that validation makes of an
-- `f32`, and for the processing of packets with the arithmetic that it does on them; the resampler,
-- a library, and the level meter are states; the detector that scores frames, a library, is a state
-- with a judgement of frames; the engine that transcribes is a state with an answer to each
-- request, and its state holds the flag that cancels a call; the validation of sessions and models
-- is a pair of tests, as Llm/Budget says; the service that sends a request to the language model,
-- with its clock and its ids, is an interface on the state of the program; the journal, the
-- documents and the index are an interface on the state of the disk; the validation and the rendering of
-- records and the instructions of a prompt are given by a record.
--
-- What is not modelled. Capture of sound, the worker process, HTTP, the database, the file system,
-- windows and the TypeScript interface, which are input and output; the threads and locks around
-- the parts, whose calls take turns; the error of a poisoned lock; the detector's memory layout.
-- `apply_update` of a session, the service around session lifecycles, the clock of the audio device
-- and the level meter are not modelled here.
pub mod Audio
pub mod Domain
pub mod Llm
pub mod Persistence
pub mod Prelude
pub mod Prompts
pub mod Transcription
