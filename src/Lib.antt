-- ===== src/Lib.antt =====
-- Catalyst API: the part of the program that takes an upload, transcodes it and reports on it, and
-- the part that says who may play a stream.
--
-- The parts, and the code they are about:
-- - Prelude: shared names, Boolean tests on the native numbers, lists, and Go's maps as association
--   lists (Prelude/Dict). Signed integers are those of Prelude/Int, texts that are taken apart at a
--   character those of Prelude/Text.
-- - Cache: cache/cache.go, the table of running jobs. Cache/Laws has its laws.
-- - Errors: errors/errors.go, error chains and HTTP replies. Result is what a function returns that
--   may fail.
-- - Video: video/profiles.go. Video/Tracks is a video with its tracks (GetTrack, SetTrack),
--   Video/Profiles the ladder of profiles (SetTranscodeProfiles, GetDefaultPlaybackProfiles), and
--   Video/Clip the segments of a clip (video/clip.go: ClipManifest, ConvertUnixMillisToSeconds; the call
--   of them in ClipInputManifest of clients/manifest.go; ValidateClippingRequest of handlers/upload.go),
--   and Video/Segments the tables of transcoded segments (video/media.go: WriteSegmentsToDisk).
-- - Callback: clients/callback_client_status.go (Callback/Status, with the progress bands in
--   Callback/Ratio) and clients/callback_client.go (Callback/Client), which keeps the latest message
--   of each job and sends it in rounds.
-- - Pipeline: pipeline/coordinator.go. Pipeline/Job has the state of a job, Pipeline/Strategy the
--   strategies and the test that the Livepeer pipeline can take an input, Pipeline/Mp4 the test for
--   MP4 outputs, Pipeline/Coordinator the messages, rows and labels of finishJob, Pipeline/Run the
--   pipelines of a job with their fallback (startUploadJob, startOneUploadJob, runHandlerAsync,
--   finishJob), and Pipeline/Upload the start of a job with the fetch of its source (StartUploadJob).
-- - Transcode: transcode/transcode_jobs.go, segments that are transcoded in parallel. A worker is a
--   state machine with a state at each point where another may run; a schedule is a list of moves.
-- - AccessControl: handlers/accesscontrol/access-control.go. AccessControl/Gate is QueryGate,
--   AccessControl/Store the caches, AccessControl/Request a request up to its decision,
--   and AccessControl/Cleared what a request has passed before the gate is asked.
-- - Middleware: middleware/auth.go (Middleware/Auth), the check of the API token, and
--   middleware/capacity.go (Middleware/Capacity), the limits on requests in flight, which come and go
--   in any order.
-- - Balancer: balancer/catabalancer. Balancer/Nodes has the nodes and their scores (geo.go),
--   Balancer/Selection the choice among them (selectTopNodes, SelectNode), Balancer/Stats the
--   statistics of the nodes, from the rows of the database to GetBestNode and MistUtilLoadSource.
-- - Geolocation: handlers/geolocation/geolocation.go. Geolocation/Members finds the member of a node
--   and resolves its URL (FilterMembers of cluster/cluster.go, clusterMember, resolveNodeURL),
--   Geolocation/Pull is the rate limit and getStreamPull, Geolocation/Source is HandleStreamSource,
--   Geolocation/Paths and Geolocation/Redirect are RedirectHandler.
-- - Triggers: handlers/misttriggers. Triggers/Broker is a group of callbacks, which end in any order
--   (trigger_broker.go), Triggers/UserNew the USER_NEW trigger (triggers.go, user_new.go), with
--   HandleUserNew of handlers/accesscontrol/access-control.go; Triggers/Payloads the payloads of the other
--   triggers, Triggers/Health the health of a stream (stream_buffer.go) and the dispatch.
-- - Mapic: mapic/mistapiconnector_app.go. Mapic/Names has the names of a stream at Mist and the push URLs
--   (mistStreamName2playbackID, getPushUrl, isIngestStream), Mapic/Push the status of one push (waitPush,
--   handlePushEnd), Mapic/Streams the map of the streams (refreshStreamInfo, getStreamInfo, and the
--   cache of mapic/utils.go), Mapic/Handlers the handlers of the triggers with their actions, in any
--   order, and Mapic/Reconcile reconcileMultistream.
-- - MistClient: clients/mist_client.go. MistClient/TriggerConfig is the trigger configuration of Mist,
--   MistClient/Operations the methods of the client over a server with a state.
-- - Manifest: clients/manifest.go (downloadManifestWithBackup, RecordingBackupCheck) with
--   config/storage_backup_url.go and GetFileWithBackup of clients/input_copy.go; Manifest/Upload is
--   GenerateAndUploadManifests, and Manifest/Sorting its order of the renditions.
-- - Scenarios: concrete runs.
--
-- The coordinator stores a job in the cache, runs one or two pipelines one after the other, sends
-- callbacks for their progress and end, and takes the job from the cache. It works on a state of the
-- cache, the callback client's messages, the rows of the database and the metrics, which its
-- operations pass on. The handlers of the pipelines, the input copier, the clipper, the HTTP client,
-- the parser of decimals, the JWT parser, the hash of a cache key and the gate are parameters.
--
-- Mist asks over triggers: USER_NEW goes through the broker to access control, STREAM_SOURCE to
-- geolocation, which asks the balancer for a node and the Livepeer API for the pull of a stream. A
-- playback request goes to the redirect handler, which asks the balancer too. The sort, the shuffle, the
-- distance of two places, the random numbers, the API, the members of the cluster, the regular
-- expressions, Sprintf and the parsers and printers of URLs and floats are parameters.
--
-- The Mist API connector keeps an entry for each stream, which the triggers and the Livepeer API change.
-- A handler is a function of that map, and what it asks of Mist, of the API or of the message queue is a
-- list of actions, since the answers to these are only logged. A reconciliation compares the map with
-- the pushes that Mist reports and lists the commands that make up the difference. The waits of the
-- connector end with the entry they belong to. The Mist client, the storage of manifests and the playlist
-- library have parameters for HTTP, JSON, MD5, uploads and downloads.
--
-- Bounds and fuel. A clip is tried again at most ten times, as the backoff says, and the recursion
-- is on the number of tries left. A decimal is printed with as many steps as twenty digits need,
-- the most that 64 bits have. The workers send at most one error each, and the error channel of
-- the code has room for a hundred, so sends do not wait with up to a hundred workers. Times of the
-- access caches are whole seconds and ratios exact fractions; the floats of the code are rounded.
-- STREAM_SOURCE is tried twenty times, and the recursion is on the tries left. Times of a clip are
-- whole microseconds, coordinates millionths of a degree, and loads hundredths of a percent.
-- The rest is structural recursion.
--
-- Not modelled: logging, metrics other than those of a job, the storage, subprocess and network
-- calls, the decoding of JSON, the sending of node metrics, the Mist balancer, the
-- metrics of the Mist connector and the other handlers of the HTTP interface. The order in which Go goes through a map
-- is the order of the list, about which nothing is assumed.
pub mod AccessControl
pub mod Balancer
pub mod Cache
pub mod Callback
pub mod Errors
pub mod Geolocation
pub mod Manifest
pub mod Mapic
pub mod Middleware
pub mod MistClient
pub mod Pipeline
pub mod Prelude
pub mod Result
pub mod Scenarios
pub mod Transcode
pub mod Triggers
pub mod Video
