-- ===== src/Lib.antt =====
-- Verification of the gateway, a Go program that passes Gemini requests to providers which are
-- connected over web sockets.
--
-- The parts, and how they work together. The pipeline (internal/pipeline/pipeline.go, module Pipeline)
-- serves a request: it lists the providers of the registry, has the selector choose one that it has
-- not tried, runs the executor, and on a failure notes the error, cools the provider down and goes on
-- to the next one. The registry (internal/provider/registry, module Registry) keeps the online
-- providers, their states and cooldown timers, and tells subscribers of changes. The selector
-- (internal/provider/selector, module Selector) finds the ready providers of the highest priority and
-- chooses by one of three strategies; session affinity uses the cache of bindings
-- (internal/provider/session/cache.go, module Cache). The relay (internal/wsrelay, module Relay)
-- carries the requests: a session keeps the requests that wait on one connection, and NonStream and
-- Stream turn the messages of a request into a response or events. A provider connects by a handshake,
-- which the manager of the relay lets through after the origin validator and the access manager
-- (internal/access, module Access) have passed it. The stream adapter of the pipeline takes the events
-- out of a stream's chunks. Thinking (internal/thinking, module Thinking) takes from the model's name
-- or the request's body how much the model may think, checks that against the model and writes it into
-- the body. Errors and the shared records are those of the package service (module Service).
--
-- Base holds what all share: the map as an association list, strings as lists of UTF-8 bytes with the
-- operations of the package strings (case and white space are those of ASCII), integers, results and a
-- stable sort. Registry.State has the state and its buffers, Registry the connecting and
-- disconnecting, Registry.Transitions the other calls, and Registry.Calls the histories of calls.
-- Selector.Candidates finds the ready providers, and Selector has the strategies. Relay.Session has
-- the operations on one session, each what happens between taking and letting go of a lock, and
-- Relay.Session.Goroutines composes them to what the goroutines do. Relay.Response has the decoding
-- and the two readers of a channel, Relay.Origin the validator of origins and its matcher, and
-- Relay.Manager the handshake and the map of sessions. Access has the extraction of keys, the static
-- provider and the chain of providers, Common the lists of names that it uses, and
-- Pipeline.StreamAdapter the decoder of server-sent events. Pipeline.Prepare has the checks of a
-- request before its attempts. Thinking.Suffix parses suffixes, Thinking.Levels orders levels and
-- turns them into budgets, Thinking.Limits and Thinking.Validate check a configuration in the order of
-- ValidateConfig, Thinking.Body reads and writes bodies, and Thinking.Apply puts these together.
-- Pipeline has the classes of errors and the cooldowns, Pipeline.Attempts the loop.
-- Pipeline.Attempts.Wired and Pipeline.Attempts.Rotating put the loop on the registry with session
-- affinity and with round robin. Examples has runs at concrete inputs. An operation is named as in the
-- source, in snake case.
--
-- How the model stands to the code. A time is a number of nanoseconds since the zero time of Go, which
-- is 0; what the clock shows is an argument. Clone methods are identities, since values do not change.
-- A call of the registry, with the publishing of its event, is one step; a timer's callback may come
-- at any time and with any arguments. A call of the cache is one step, but for Get, which lets go of
-- its lock on the way. Iteration over a Go map is over the list of its entries, whose result is sorted
-- where the order matters. A cooldown and a delay are not negative. Lists of candidates have no nil
-- entries. The executor, the selector and the registry are an interface of the loop in
-- Pipeline.Attempts, which the program's registry and selectors fill in Wired and Rotating, at one
-- time of the clock and with no other calls in between; the JSON library, the canonical form of header
-- keys, and the texts of HTTP codes are parameters. The loop of the origin matcher runs on fuel, the
-- product of the two lengths plus one each, which is proved to be enough. So does the decoder of
-- events, on the length of its buffer, since a round takes two bytes away. An int64 is an integer, and
-- its sum wraps around. The packages gjson and sjson are a record of functions; what is relied on of
-- them is stated for bodies in which the edited objects are objects, and Examples.FlatJson is an
-- instance. Loops over lists are structural recursion; the loop of attempts recurs on the number of
-- attempts that are left, which the source's counter bounds in the same way.
--
-- Not modelled: logging, the sockets with their heartbeat, the bootstrap of streams, the editing of
-- bodies, the registry of models, configuration and the HTTP server; in the modelled parts,
-- capabilities and extra data of providers and the metadata of errors and of authentications, which
-- are only passed on.
pub mod Base
pub mod Service
pub mod Registry
pub mod Cache
pub mod Selector
pub mod Relay
pub mod Pipeline
pub mod Common
pub mod Access
pub mod Thinking
pub mod Examples
