-- ===== src/Lib.antt =====
-- log-collector reads log files, keeps how far it has read each of them, and exports the records as
-- OTLP over HTTP. This library models its core, file by file, and proves what each part promises.
--
-- How the parts interact. Discovery finds files (FileTarget). Poll of internal/tailer/tailer.go reads
-- each of them from the position that internal/state/store.go keeps under the file's device and inode,
-- hands each complete line to accept, which makes records of lines, and commits the offset behind the
-- accepted lines. A record goes through flow control to Enqueue of internal/exporter/otlphttp.go, which
-- reserves its bytes and puts it on a channel; Run gathers the records of the channel into batches and
-- sends them. submitRecord of internal/app/app.go hands a record to the webhook first, which posts those
-- of the configured severities. Save writes the table of positions to the state file.
--
-- The files:
--   Base         shared names; Boolean tests, lists, 64-bit integers, Go maps, texts, decimal numbers.
--   Utf8         Go's conversion between strings and runes.
--   Model        internal/model/model.go: FileTarget, Multiline, Record.
--   State        internal/state/store.go: Load, Get, Set, Cleanup, fileIdentity and save, which is
--                begin_save and finish_save, the two critical sections, around write_file.
--   State/Files  the steps of the file write, each of which may fail, on a disk of named files.
--   State/Saving save among concurrent calls of Set and Cleanup, as runs of events.
--   Tailer       internal/tailer/tailer.go. Lines has truncateRunes and readBoundedLine; Severity
--                parseSeverity and its pattern; TraceId parseTraceID; Cri parseCRI; Records
--                preparedRecord; Accept has accept, emitRecord and emitPrepared, below it Bounds on the
--                size of a pending record, Follows and Conservation on the lines kept; Flush has
--                flushExpired and Close; Read has read, identity and Poll, below it Resuming on files
--                that grow.
--   Exporter     internal/exporter/otlphttp.go. Size has recordSize; Queue has Enqueue,
--                reserveQueueBytes and releaseQueueBytes as steps of producers and consumer; Batch has
--                Run; Request has BuildRequest, keyValues and attributeKey, below it
--                Keys on what attributeKey tells apart;
--                Retry has sendWithRetry; Send has New, parseRetryAfter and what send makes of a reply.
--   FlowControl  internal/flowcontrol/limiter.go: Submit and recordDrop over any receiver.
--   App          internal/app/app.go: submitRecord, the receiver behind the flow control.
--   Config       internal/config/config.go: the structs. Validate has Validate and its helpers, Valid what
--                a valid configuration is, Defaults has defaults and Load.
--   Discovery    internal/discovery/discovery.go. Rules has New; Paths addContainerAttributes and the
--                functions on paths; Files discoverFiles; Processes discoverProcess and
--                resolveProcessFile; Cycle Discover, deduplicate and prepareResource.
--   Reload       internal/reload/watcher.go: Run as the sequence of the cases that its select takes.
--   App/Reload   internal/app/app.go: reloadConfig and restartRequiredChanges, with SetLevel of
--                internal/logging/logging.go.
--   Webhook      internal/webhook/wechat.go: escape, truncate, the markdown writer, render, content, and
--                the tests of Send. Setup has New and Send. Utf8 is on valid texts, Laws on the limit,
--                Sending on the tests of Send.
-- The modules named Laws, those below them and those named for what they prove hold the proofs; those
-- named Tests hold runs at concrete inputs.
--
-- Numbers: a text is a list of bytes. The generation of the store and the offsets and counts in Go's
-- uint64 and int64 that can wrap around are modelled with the wrap-around, and a float64 of the
-- configuration by its bits; lengths of texts in memory are
-- natural numbers. Loops over a reader run on fuel: one more step than bytes are left is enough for the
-- loop of read, and two more for readBoundedLine, which the theorems on them include; the
-- loop of sendWithRetry runs on the list of attempts.
--
-- Parameters, which the code does not define: the JSON codec and the YAML decoder, the compiler of
-- regular expressions and the compiled ones, filepath.Glob, filepath.Join and filepath.Clean, url.Parse,
-- time.Parse and the format of a time stamp, reflect.DeepEqual, the parser of level names, the
-- conversion of numbers to float64, the token bucket of the package rate, the clock, the processes and
-- their open files, the status of files, the events of a watched file, which step of a write to the disk
-- fails, the removal of the temporary file too, whether the state file can be read, whether the receiver of a record takes it, and the replies over HTTP.
--
-- Not modelled: the YAML decoder; the output of logging, and the command line; the start and the shutdown
-- of Run of internal/app/app.go, with its tickers and goroutines; the worker pool of Poll, whose reads
-- stand one after another here, those that were handed over where the context ends; the panic of Set on
-- a nil map, which Load reports as a result of its own; the HTTP requests and their bytes.
pub mod Base
pub mod Model
pub mod Config
pub mod State
pub mod Utf8
pub mod Tailer
pub mod Exporter
pub mod App
pub mod FlowControl
pub mod Webhook
pub mod Discovery
pub mod Reload
