-- ===== src/Lib.antt =====
-- A model of locho: a host shares HTTP and TCP services over peer-to-peer QUIC connections, and an
-- attaching side gives them local listeners. Both are Rust; the model is of their own logic, with
-- the transport, the HTTP client, JSON, SHA-256, URLs and the file system as parameters.
--
-- The parts, and how they meet:
-- * Service, Capability (crates/locho-core/src/service.rs, capability.rs): service kinds and safe
--   names; a capability names a service and holds its secret.
-- * Auth (crates/locho-core/src/auth.rs): the proof of a secret. The digest is a parameter.
-- * Wire (crates/locho-core/src/protocol.rs): heads and body chunks behind a four-byte length. A
--   reader is the list of bytes up to the end of the stream, a writer the list of bytes that it
--   appends; JSON is a `Codec` per type. Wire/Idle has the relaying of two streams under an idle
--   deadline, by the polls of the copy between them; its loop has two rounds of fuel for each poll.
-- * Upload (src/attach.rs `tunnel_request_on_lease`, src/host.rs `forward_to_upstream_with_state`):
--   the body of a request, from the frames of the local client to the pieces sent upstream. The
--   loops of the host run on fuel: the declared length plus one, or the bytes that are left plus
--   one. Each round uses up at least one of these, so that they suffice. A read that fails keeps the
--   pieces that have been passed upstream.
-- * Download (src/host.rs `forward_to_upstream_with_state`, src/attach.rs
--   `tunnel_request_on_lease`): the response, from the chunks of the upstream to the frames that the
--   local client gets. The loops of the attaching side run on fuel, as those of Upload.
-- * Net, Config (src/config.rs), AttachConfig (src/attach_config.rs): the two configuration files
--   once they are read, and all their checks. `Env` holds what the checks ask of URLs, files and
--   the platform.
-- * Host (src/host.rs): the handling of one stream: reading its head, authentication, admission,
--   the request that an upstream is sent, and its answer. The outcomes of network calls are arguments,
--   a run is its effects in order. The
--   semaphore of TCP connections is the number of its permits left.
--   Host/Startup has the bind address and the secrets that a start keeps and draws.
-- * State (src/state.rs): the files of the host's identity and secrets. An operation is an `Action`,
--   which keeps what it did to the files when it fails; what is drawn at random and what goes wrong
--   in a write are arguments. Files has the replacement of one file, with the files after each of
--   its steps, so that a crash between two steps is one of these.
-- * Relay (crates/locho-core/src/relay.rs, src/relay.rs): which relays a configuration allows. The
--   URL library, header values and the environment are parameters.
-- * Session (crates/locho-core/src/session.rs): the driver of a peer session as a state machine.
--   `drive` is one step of it, `World` is what it then finds;
--   leases invalidate, owners request a shutdown and the driver may be dropped between any two
--   steps. A step ends at the driver's next wait, or between the two writes at the end of `run`;
--   what another thread sees within a step is not modelled. A time is a number of whole
--   milliseconds. The revision and the generation are 64-bit.
-- * Ticket (crates/locho-core/src/ticket.rs): the portable text of one capability, with all its
--   checks. The URL library, base64 and JSON are parameters.
-- * AcceptRetry (crates/locho-client-native/src/listener.rs): local accepts that are tried again.
--   The loop runs over the list of what its rounds meet, and is still pending at the end of it.
-- * WebHttp (crates/locho-web/src/http.rs): the HTTP/1.1 client of the browser. Reader and Body read
--   lines and bodies, Request encodes a request, Framed chooses the framing of a response, Head
--   reads heads and whole responses. A stream is the list of the pieces that arrive; an idle timeout
--   or a failed read is a piece that breaks. The inner loop of `head` has as fuel one more than the
--   bytes that a head may still take, of which each line uses two or more; `read` has the number of
--   its rounds as fuel, of which each but the last passes on a byte of the body. `usize_max` is that
--   of the platform.
-- * Forward (crates/locho-client-native/src/forward.rs): the connections of any number of local
--   listeners, whose events come in any order, and the limit that they share.
-- * Headers (src/http_utils.rs) and Dns (src/dns.rs): which headers pass, what the upstream's URL is
--   given, which lookup decides. Headers/Request has the request for an upstream (src/host.rs
--   `forward_to_upstream_with_state`) and the headers of a response for the local client
--   (src/attach.rs `tunnel_request_on_lease`); `HttpCrates` are the parsers and setters they use.
--
-- Base holds what all share, Tests runs the theorems at concrete inputs.
--
-- Not modelled: reading and deserializing the configuration files; failures of a writer, except
-- where a function's result depends on them; logging; which bytes are relayed after a
-- TCP handshake; where the state directory is and how it is made; the command line, the native
-- client, the rest of the web client, and the packages for Flutter and the browser, which wrap the
-- same core. The arm of `handle_http_stream` for a TCP service is left out, since the validation
-- before it refuses such a service.
pub mod Base
pub mod Service
pub mod Capability
pub mod Wire
pub mod Upload
pub mod Download
pub mod Net
pub mod Auth
pub mod Config
pub mod AttachConfig
pub mod Host
pub mod Session
pub mod Dns
pub mod Headers
pub mod Ticket
pub mod AcceptRetry
pub mod Forward
pub mod State
pub mod Relay
pub mod WebHttp
mod Tests
