-- ===== src/Lib.antt =====
-- The core of the fitz client: its wire format, its routes, and the gates that bound and wake work.
--
-- Base has shared notation, lists measured by native numbers, and the errors of
-- src/core/errors.ts as values: an operation that throws returns `err`. Bytes has a byte array as a
-- list of numbers below 256, and the platform's DataView and TypedArray.set on it.
--
-- Buffer models src/core/buffer.ts: Text is the platform's text encoder and decoder, an interface;
-- Cursor and Writer are createBufferWriter, whose array grows and whose writes past its end change
-- nothing; Reader is createBufferReader, a state monad over the array and the offset.
--
-- Frame models src/frame/codec.ts: Codec is encodeFrame, decodeFrame and withCorrelation; Control
-- is the payloads of CONNECT, HELLO, CONNECT_REJECTED and GOAWAY; Parser is createFrameParser;
-- Extensions models src/frame/extensions.ts, its loop over the fields on fuel: each field has six
-- bytes at least.
-- Response models src/protocol/response.ts on the reader.
--
-- Routes models src/domains/_routes.ts: Segments splits routes, Matcher is the loop of
-- routeMatchesPattern, Size is wireSizeIsValid, Shape is the scan of concrete routes, and
-- Registration that of registration patterns; Glob is the meaning of a pattern. A string is its UTF-16 code units. The loop runs on fuel, match_fuel: no
-- way back is taken more often than there are segments, and between two of them the pattern is
-- gone through at most once.
--
-- Gates models three schedulers: Request is src/client/internal/request-gate.ts, Wake is
-- src/core/wake-gate.ts, Handlers is src/client/internal/async-handler-dispatcher.ts. JavaScript
-- runs each call to its end, so a call is one step of a function on the state; the promises that it
-- settles are its outcomes, and a history is a list of steps.
--
-- Multiplexer models the requests with a correlation of src/client/multiplexer.ts: the map of
-- pending requests, and as events the issue of a request, what becomes of the promise of its send,
-- its timeout or abort, a response, and the connection's set-up and loss; Multiplexer/Timers is its heap
-- of deadlines, whose loops run on fuel that is the distance to the root, and to the end. Recovery models the loop of
-- src/client/internal/reconnect.ts and the delays of backoff.ts: what happens outside is a world, the
-- loop runs on fuel, and as many rounds as attempts are allowed, and one more, are enough. Lifecycle
-- models src/core/task-group.ts in TaskGroup, the turns of its workers being events, and createScope of
-- src/core/lifecycle.ts in Scope: a resource is its identity, and that its disposal settles is an event;
-- Group is createSubscriptionGroupInternal, on the same events.
--
-- Domains models the payloads of the domains: Kv is the decoders of src/domains/kv/codec.ts, and
-- Kv/Requests its requests PUT and GET, whose arrays are filled by a cursor; Queue is the response to
-- RESERVE of src/domains/queue/codec.ts, which uses Routes on what the broker sends;
-- Pending is src/domains/internal/pending-notifications.ts, and Notice the subscriptions of
-- src/domains/notice/client.ts on it, with the broker's answers as events; Rpc is src/domains/rpc/iterator.ts, a promise being what becomes
-- of the call that made it. Stream is src/domains/stream/codec.ts: Stream and Stream/Replies are its
-- decoders, Stream/Requests its encoders; Routes/Selectors is the scope of its selectors. Subscription is the
-- controller of src/domains/internal/subscription-handle.ts.
--
-- Not modelled: sockets, timers, promises as objects, the pool of buffers and the cache of encoded
-- routes, the path without correlation of the multiplexer, reports to the user,
-- and the rest of the clients of the domains.
pub mod Base
pub mod Bytes
pub mod Buffer
pub mod Frame
pub mod Response
pub mod Routes
pub mod Gates
pub mod Multiplexer
pub mod Recovery
pub mod Lifecycle
pub mod Domains
mod Tests
