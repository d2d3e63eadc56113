-- ===== src/Lib.antt =====
-- The download engine (pkg/engine) and the SSH tunnel (pkg/tunnel), in the parts where their own
-- logic lies.
--
-- A probe (pkg/engine/probe.go) finds the size of a remote file. Its length is divided into chunks
-- (chunk.go). Workers download the chunks by range requests with retries (worker.go), into a
-- shared file (file_sink.go, fd_sink.go) or into one buffer for each chunk of a stream
-- (stream_sink.go). A tracker counts bytes (progress.go), and a checkpoint saves the chunks'
-- progress so that a later run can resume (checkpoint.go).
--
-- Chunk is chunk.go: `calculate_chunks` is CalculateChunks, `set_downloaded` and `mark_completed`
-- are the methods. Checkpoint is checkpoint.go: `new_checkpoint`, `sync_from_chunks`,
-- `is_resume_valid`, and in Checkpoint/Storage `save` and `load_checkpoint`; `restore_chunks` is
-- the restoring loop of fd_sink.go. Progress is the counters of progress.go. Worker is worker.go:
-- its data are in Worker.antt, attemptDownloadChunk in Worker/Attempt, downloadChunk in
-- Worker/Retry, parseContentRange in Worker/Header; Worker/FileSink and Worker/Buffer are the two
-- writer factories. Stream is the prefetching reader of stream_sink.go: `step_phase` is a worker
-- of startPrefetchWorkers, `read` and `close` are Read and Close, and `Reaches` puts the steps of
-- all of them in any order, with who is asleep in `readyCond.Wait` and each `Broadcast`;
-- `result i` is what the download of chunk `i` comes to (`fetch_chunk`).
-- Probe has the record FileInfo, and Probe/Hosts the guard against private networks of probe.go
-- and options.go; Probe/Requests is Probe, attemptProbe and probeWithGetRange, with
-- extractFilename as a parameter. Options is options.go: `apply` is the With... functions,
-- `new_engine` is New of downloader.go.
--
-- Sink is file_sink.go and fd_sink.go. Sink/Pool is the worker pool that downloadMultipartToFile
-- and downloadMultipartToFileHandleWithCheckpoint share: `step_pool` is what a worker does next, or
-- the end of the caller's context, `Runs` puts such steps in any order, and the download of a chunk
-- in it is Worker's. Sink/Sessions runs such pools one behind the other, each from the checkpoint
-- and the disk that the one before has left when its workers had returned. Sink/Single is the single
-- stream, Sink/Dest is resolveDestPath, and Sink/Entry the choice between the two kinds of download
-- in DownloadToFile, DownloadToFD and DownloadToFileWithResume.
--
-- Tunnel/Socks is the handshake of socks5.go, and Tunnel/Registry its connections from acceptLoop
-- to Close, with each handler's own closing and the two steps of its deferred function; Tunnel/Dns
-- is dns.go; Tunnel/Prefixed is PrefixedConn of dialer.go; Tunnel/Config is config.go;
-- Tunnel/Manager is manager.go, whose runners are the goroutines of runTunnel, the one for the
-- parallel SSH connections included. The tunnel uses nothing of the engine.
--
-- An int64 (and an int, on 64-bit platforms) is an integer of Common/Int, and arithmetic wraps by
-- `wrap64` of Common/Word. Text is a list of bytes; `strings.Fields`, `strings.EqualFold` and the
-- like are modelled on ASCII text. A time is the RFC 3339 text that the program formats it to.
-- What comes from outside is data of the model: the answer of the server to each range, what each
-- read yields, how each write ends, when the context is done. A response body is finite.
-- `chunks_from` takes the file's length and one as fuel, since each round covers at least one
-- byte; the retry loop takes `rounds`, the number of rounds that its `for` allows; `read` takes
-- one round for each chunk that is left and one more. The JSON codecs are parameters. The search of
-- resolveDestPath takes a bound on the length of the paths that exist, since each candidate is
-- longer than the one before. A pool needs no fuel: a run of it is a sequence of steps.
--
-- A server is taken at its word, and no further: a 200 carries the file from its start, a 206 the
-- file from where its `Content-Range` starts, whatever was asked for, and the body of any other
-- answer is arbitrary (`HonestReply` of Worker/Content).
--
-- In a pool the download of a chunk is one step, which stands at its end. This loses what is seen in
-- the midst of a download: the tracker may then count more than the file has (`Snapshot` cuts it
-- down), and the checkpoints that are saved while other workers are downloading are not modelled.
-- What is said of the disk, the tracker and the checkpoint is said once all workers have returned;
-- by then only the sum of the changes counts, since no two downloads touch the same chunk.
--
-- Not modelled: the floats of the progress tracker, the choice of a file name by the probe, the
-- relaying of bytes by the SOCKS5 server, the rest of the dialer with the payload, the SSH client,
-- the tunnel's web server, the calls of the operating system for the proxy and the
-- VPN, the command line, and the front ends in other languages.
pub mod Common
pub mod Checkpoint
pub mod Chunk
pub mod Options
pub mod Probe
pub mod Progress
pub mod Sink
pub mod Stream
pub mod Tunnel
pub mod Worker
pub mod Tests
