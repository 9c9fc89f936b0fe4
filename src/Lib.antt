-- ===== src/Lib.antt =====
-- atproto-push-gateway: a gateway that reads the AT Protocol's firehose and the deliveries of
-- Fediverse servers, and hands push notifications to Expo, FCM and APNs.
--
-- The parts and their files:
--
-- internal/store (store.go, webpush.go) is Store and its children. The record Store has the five
-- tables of the SQLite file, each the list of its rows in the order of insertion, and the four maps
-- that the source keeps beside them. A call of the database is a constructor of Statement, and the
-- oracle Db says whether it succeeds; a statement that fails changes nothing, and a transaction that
-- does not commit neither. Store/Rows has the loops over the rows of a query: a call of Next that
-- fails ends them with no error, as the source does not look at rows.Err(). A query that runs on the
-- index of a primary key gives the rows in the order of the key, the others in that of insertion. Tokens, Blocks, Verifications and Endpoints have one function for each
-- method, in snake_case of its name; Load is New with loadIntoMemory. History has the sequences of
-- operations, restarts included. Tokens/Interleaved has RegisterToken and UnregisterToken as the
-- statements and the uses of the map that they are made of, in any order of several calls;
-- Endpoints/Calls has any calls on the table of endpoints, and what they promise of a function.
--
-- internal/vapid (vapid.go) is Vapid: ParseHeader, Verify, sameKey, decodeKey, parsePublicKey;
-- Describe is in Vapid/Describe, as the values that it prints.
--
-- internal/push (push.go, fcm.go, apns.go) is Push: a Send is a function of the notification to the
-- request, and of the response to one of three results (no error, ErrTokenInvalid, another error).
--
-- internal/relay (relay.go) is Relay. Its handlers are functions of a request and the state to the
-- new state and the HTTP status, over the interface EndpointStore, which Relay/Sqlite fills with the
-- operations of Store/Endpoints. Limiter is the rate limiter, Register the two handlers of the
-- client, Delivery the handler of the sender, Routes the paths of both.
--
-- internal/jetstream (consumer.go, posttext.go) is Jetstream. Commit has the handlers of a commit,
-- Notify sendNotification, Format the titles and bodies, PostText the texts of posts, Stream the
-- reading loop's round with a message and the channel of commits, Lifecycle the loop of Run with the
-- channels that it selects on, as a step relation, and System the whole consumer: Run, connect, the
-- eight workers and the callers in any order, where the handling of one commit is one step.
--
-- internal/xrpc (handler.go, blocks.go) is Xrpc. Auth has verifyAuth with the checks on the token
-- and its signature, Registration the handlers that register and remove a push token, Backfill the
-- import of an actor's blocks, which ends after 20 pages as in the source, and Routes the paths.
--
-- internal/originverify (middleware.go) is OriginVerify: Wrap, which stands before all routes.
--
-- internal/profile, internal/posttext and internal/did (resolver.go of each) are Resolvers: the
-- cache that they share the code of, the methods that answer from it, and the requests in Fetch. The
-- rest of internal/did is Did: Addresses has the dialer and its filter of addresses, Fetch the
-- request for a document, Keys the signing key of a document, which Xrpc/Auth uses, and Base58 the
-- decoding.
--
-- cmd/server (main.go) is Server: Server itself reads the environment, Senders configures the push
-- senders, and Start assembles the parts; log.Fatalf is an error value. Shutdown has the end of
-- main as a step relation beside the requests and the consumer.
--
-- The relay and the consumer hand notifications over to a sender; the model of each keeps the list
-- of what was handed over, and takes the sender's answer as a function of the notification.
--
-- Texts are lists of code points, bytes lists of numbers; lengths in bytes are those of UTF-8, and
-- texts that are no valid UTF-8 are left out. Recursion is structural everywhere, with no fuel
-- but the pages of the backfill and the digits of a number, for which the number is fuel enough.
-- Counters and times are natural numbers with no upper bound; the source has 64 bits for them.
--
-- Not under the repository, and so parameters with no assumption on them: the JSON decoder (a
-- request or a record is given as what it decodes to, if it does), base64, P-256 and the JWT library
-- (the fields of Crypto), SHA-256 (hash), the random source, the HTTP client, the OAuth2 source, the
-- zstd decoder, what the net package parses and looks up, and the decoders of points on curves. The
-- DID, profile and text resolvers are parameters of their users as well, as an interface or a nil
-- pointer can replace them in the source.
--
-- Not modelled: interleavings of the store's operations other than those on tokens (each is one
-- step, as under its locks), the sockets and pings of connect, a second call of Stop, which panics,
-- log lines and metrics, and the timeouts of the HTTP server. The backfill is a function of the
-- store, whereas the source runs it beside the consumer; Xrpc/Backfill/Overtaken has one record of it
-- beside a deletion.
pub mod Base
pub mod Store
pub mod Vapid
pub mod Push
pub mod Relay
pub mod Jetstream
pub mod Xrpc
pub mod OriginVerify
pub mod Resolvers
pub mod Did
pub mod Server
