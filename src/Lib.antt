-- ===== src/Lib.antt =====
-- A verification library for ibkr-go, a client of the Interactive Brokers TWS API.
--
-- The program. A client owns one session engine. Its actor goroutine holds all mutable state;
-- internal/transport reads and writes frames (internal/wire) whose envelope (internal/protocol) names a
-- message and its body's encoding, internal/codec turns bodies into messages, and the engine routes
-- messages to requests, subscriptions and order handles. A caller's request is checked before it is
-- sent, gets a request ID or an order ID from the engine, and its outcome reaches the caller through an
-- error, a Subscription or an OrderHandle.
--
-- The files.
--   Prelude        shared names: tests on numbers, lists, integers, texts, results.
--   Wire           internal/wire. Fields is fields.go, Frame is frame.go. Bytes are numbers below 256;
--                  a writer that takes part of a slice is a list of answers.
--   Protocol       internal/protocol. Outbound, Inbound and Registry are registry.go, Gates is
--                  version.go and protobuf.go, Envelope is envelope.go.
--   Transport      internal/transport/transport.go. Queue and Writing have the invariant of a connection,
--                  Results its runs, Shutdown its end. A Write of the socket is a step with an answer.
--   Codec          internal/codec. Numbers is strconv, Reader is decoder.go, Messages and Decoders the
--                  classic bodies of codec_news.go, codec_contracts.go, codec_misc.go, codec_account.go,
--                  codec_marketdata.go, codec_orders.go and codec_session.go, Batch DecodeBatch and Decode of
--                  codec.go. Layouts and Layouts/Bodies list a message's fields in order, as the comments
--                  of the decoders do but for the columns of scanner data.
--   Engine         Ids is engine.go. It has the four counters with allocReqID, allocOrderID, observeRequestID,
--                  observeOrderID and observeNextValidID; whether a route, an order or a preview has an
--                  ID is a function that an environment chooses at each step. Ids/History is the
--                  relation of all histories of these calls. Retire is engine_subscription_cancel.go, where
--                  a transport is known by a number, and Backoff reconnectDelay of
--                  engine_reconnect.go. OrderRoutes has the routes of orders of engine_reconnect.go and
--                  engine_route.go in gaps and recoveries, Executions the handlers
--                  of subscribeExecutions of engine_orders.go, with executionCorrelation in
--                  Executions/Correlations, and Brackets the placement of a bracket there.
--   Errors         errcodes.go (ErrCode, Classes) and errors.go (Tree, Retry). An error is a tree of
--                  nodes; errors.Is and errors.As walk it.
--   Streams        order_handle.go (OrderHandle) and subscription.go (Subscription). A channel is a list
--                  with a capacity, a send in a select with a default succeeds while it is not full, and
--                  the reader is a step of its own. actor_cancel is the callback that
--                  newKeyedSubscriptionRoute of engine_subscription_route.go installs;
--                  Subscription/Route has its other callbacks, with the loops of engine_reconnect.go that
--                  call them.
--   Requests       Durations has HistoricalDuration and its constructors of types_marketdata.go, Valid of
--                  historical_validation.go and validateHistoricalDuration of requests.go.
--   Orders         order_validation.go and validateContract of engine_convert.go. Types has the structs
--                  of types_order.go and types_contract.go, Contract and Tags the checks that several
--                  callers share, Validation the checks of an order in the order of the source, Versions
--                  the gates by server version, Bracket prepareBracketRequest. Decimals are a parameter.
--   Tests          the theorems at concrete inputs, and runs of the definitions.
--
-- Bounds. alloc_req_id and alloc_order_id loop on fuel: 2147483647 and as many steps as the source's
-- guard on the wire's maximum leaves, which the theorems on them show to be enough. A number is printed
-- with 20 digits at most, and 64 bits have 19. Numbers on the wire
-- are at most 2147483647, so no sum of the modelled 64-bit code wraps but the products of Minutes and
-- Hours, whose wrap-around is written out; a Go int or int64 that a caller
-- sets is an integer. A validation error is modelled without the printed value.
--
-- Not modelled: goroutines and time, the printed texts of errors, most of reconnection, routing, order placement
-- and the other requests of the engine with their checks, the codec's protobuf bodies and its
-- encoders, the transport's read loop and pacing, and the tools under cmd,
-- internal/capturelog, internal/testhost, scripts and examples.
mod Prelude
pub mod Wire
pub mod Protocol
pub mod Transport
pub mod Codec
pub mod Engine
pub mod Errors
pub mod Streams
pub mod Orders
pub mod Requests
pub mod Tests
