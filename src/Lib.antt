-- ===== src/Lib.antt =====
-- A verification library for mybot, the SDK that connects a device to cloud AI agents.
--
-- The parts of the program and the files that model them:
--
-- * Application state: core/mybot_state_model.c packs the runtime phase, the network flag and the
--   device-service state into one atomic word. `StateModel` has its operations under the names of the
--   C functions less their prefix mybot_state_model_; `StateModel/Abstract` has the record of three
--   fields that the word stands for, `StateModel/Refine` and `StateModel/Reach` the theorems.
-- * Device lifecycle: core/mybot_device_lifecycle.c drives pairing, the binding polls, conversations
--   and the renewal of RTC tokens. `Lifecycle` has its data; `Lifecycle/Mailbox` the requests that
--   other threads post, `Service` the queued HTTP work and the end of a conversation, `Auth` the stored
--   credential, `Pairing` and `Session` the actions, `Init` and `Api` the public operations. A static
--   function of the source has a definition of its name. `Api/Run` has the sequences of public calls.
--   What the lifecycle does not implement enters as the record `Env`: the device client's replies, the
--   key-value store, the callbacks' answers, allocation failures, and the calls of other threads that
--   fall into a blocking call. The record `Lifecycle` carries the list of its effects, newest first.
--
-- * Byte queue: support/mybot_ringbuf.c, used by media/mybot_media_pipeline.c for audio. `Ringbuf` has
--   the operations on the array and the two indices, `Ringbuf/Queue` the bounded queue that they
--   implement, `Window`, `Fill`, `Drain` and `Refine` the proofs.
-- * URL parser: support/mybot_url.c. `Url` has the parser, `Url/Safe` the bounds of what it accepts,
--   `Url/Print` the printer.
-- * HTTP client: support/mybot_http_client.c and mybot_http_header.c. `HttpClient/Headers` has the header
--   checks, `Chunked` the decoder of chunked bodies, `Response` the response parser, `Complete` the
--   test that ends a receive early, `Stream` the send and receive loops, `Request` the function
--   http_request that puts them together. It calls the URL parser.
--
-- * Device client: service/mybot_device_client.c. `DeviceClient` has the URLs and the credential header
--   of its requests, which go to the HTTP client.
--
-- * Media pipeline: media/mybot_media_pipeline.c moves audio between the devices, the announcements and
--   the RTC session. `Media` has its state, `Media/Start` starting and stopping, `Playback` and `Capture`
--   the timers of the three workers, `Session` the calls of other threads and the flush between two
--   sessions, `Volume` the volume. `Media/Rings`, `Drained`, `Valid`, `Pending` and `Echo` have the
--   lemmas of `Reference`; `Resources`, `Preempt` and `Flush` the other theorems. Its queues are those of `Ringbuf`.
-- * Audio volume: media/mybot_audio.c. `Audio` has the volume of the device and the software volume,
--   `Audio/Gain` and `Audio/Volume` the theorems.
-- * Announcement queue: platform/mybot_announce.c. `Announce` has the queue of sounds, `Announce/Handles` and
--   `Announce/Reads` the theorems.
--
-- * Screen presenter: core/mybot_presenter.c over platform/mybot_lcd.c. `Presenter` has what the screen shows,
--   `Presenter/Shown` the theorem.
-- * Device commands: core/mybot_device_command.c. `DeviceCommand` reads a command from the nodes of the JSON
--   library, `DeviceCommand/Fields` and `DeviceCommand/Accept` say what it reads.
-- * Conversation messages: core/mybot_app.c. `Rtm` has the handlers of the control thread, `Rtm/Messages`
--   the reading of a message, `Rtm/Events` keys and the reports of the RTC adapter and the lifecycle,
--   `Rtm/Entries`, `Once`, `History`, `Envelope` and `Queueing` the theorems. Commands change the
--   volume of `Media`, indicators go to `Presenter`, and a conversation starts and stops with the media
--   session. The parser of the JSON library is an argument.
--
-- The lifecycle reaches the HTTP client through the device client, whose replies are part of `Env`; the
-- state model receives the lifecycle's states from core/mybot_app.c.
--
-- Conventions. A C string is the list of its bytes before the terminator, and `copy_text n` is a
-- strncpy into an array of n bytes. A C int that may be negative is a ℤ over the native numbers;
-- counters, sizes and intervals are numbers, with the wrap-around of unsigned words written out.
-- Logging is left out. A field that is not of the source logs what is handed to a device: `played`, `sent`
-- and `ref_read` of the pipeline, `handed` of the audio context. Null pointers are left out or are
-- `none`.
--
-- A turn of an audio worker is one step. The calls of other threads that fall into a playback turn are
-- lists in the record `Turn`, at its start, before the generation is tested and during the device's
-- write. Between turns they are steps of their own, as are the two flushes of a session.
--
-- Loops. The digit loop, the line searches and the trailer loop are structural. The chunk loop, the
-- header loops and the Transfer-Encoding loop take fuel of one more than the bytes that are left, and
-- each of their rounds takes at least one byte. The send and receive loops take a list with what the
-- peer and the clock do in each round, and a list that ends is a deadline that has passed. The drain of a
-- byte queue takes fuel of the queue's size, and each round takes a byte; the read of an announcement
-- takes fuel for the frames and the sounds, and each round takes a frame or passes a sound.
--
-- Not modelled: the request bodies of the device client and its reading of replies, Wi-Fi events, the
-- service queue and the start and the stop of the application, the RTC adapter over the vendor's SDK, wake
-- words and video, the registries of platform adapters, the JSON library (a copy of cJSON), connecting a
-- socket, and memory barriers. The calls of the byte queue are sequential.
pub mod Common
pub mod StateModel
pub mod Lifecycle
pub mod Ringbuf
pub mod Url
pub mod Audio
pub mod Announce
pub mod Presenter
pub mod DeviceClient
pub mod DeviceCommand
pub mod HttpClient
pub mod Media
pub mod Rtm
