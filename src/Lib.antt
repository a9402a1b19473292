-- ===== src/Lib.antt =====
-- Verification library of the secret proxy: a server that holds a key pair, opens credentials that
-- were sealed to its public key, and injects them into requests which it forwards to the hosts, paths
-- and methods that each seal allows.
--
-- The program's parts and their files:
--   internal/seal/seal.go
--     Seal           the data of a seal, AuthKind, ProcessorKind
--     Seal.Regex     the syntax trees of regexp/syntax and what a match of them is
--     Seal.Anchors   requireAnchoredPattern, beginsWithAnchor, endsWithAnchor
--     Seal.Validate  Secret.Validate, refuseHeaderControlChars
--     Seal.Keys      Hex, ParsePrivateKey, ParsePublicKey, ReadPrivateKeyFile
--     Seal.Euid      NewEUID
--     Seal.Envelope  Seal, Open, tryOpen, HashBearer, VerifyBearer
--   internal/proxy/ingress.go
--     Proxy.Ingress  the allowlist of client addresses and the source of a client's address
--   internal/proxy/proxy.go
--     Proxy.Server   the configuration, the names on the wire, the parts of a URL
--     Proxy.Dots     refuseDotSegments
--     Proxy.Policy   rejectNonStandardPort, validateHost, validatePath, validateMethod, stripPort
--     Proxy.Override parseSealedHeader, extractBearer, resolveProcessor
--     Proxy.Director the target and the director of forwardTo
--     Proxy.Forward  handleForward, passthrough, forwardTo up to the reverse proxy
--     Proxy.Egress   guardedDial, isPrivateOrLocal, AutoSelfHostnames
--     Proxy.Respond  statusWriter, bodyReadTracker, the error handler of forwardTo, logForwardOutcome
--     Proxy.Serve    serve, handlePublicKey
--     Proxy.Log      the log lines of handleForward, passthrough, respondError, logForwardOutcome
--     Proxy.Upstream the header that the reverse proxy of net/http/httputil makes of the director's,
--                    and the lines that http.Transport writes of it
--     Proxy.Dialled  the address that http.Transport makes of the director's URL
--     Proxy.Body     the limit of handleForward on the request's body
--   pkg/client/client.go
--     Client         NewTransport and its options, RoundTrip
--   cmd/secret-proxy/main.go
--     Command          the helpers that read settings and keys
--     Command.Sealing  runSeal, runUnseal
--     Command.Serving  the checks of runServe, the configuration it builds, the call that listens
--     Command.Shutdown the end of runServe: the listener, the signal and the shutdown
--     Command.Serving.Settings  runServe from the environment to its http.Server and warnings, newLogger
--     Command.Requesting  runRequest, main
--     Command.Generating  runGenTLSCert, runGenKeypair, GenerateKeypair of internal/seal/seal.go
--   internal/proxy/tlscert.go
--     Proxy.TlsCert  GenerateSelfSignedTLS, LoadCert, IsDevCert
--   The functions of Go's library that these call are modelled in Text (strings, unicode/utf8),
--   Encoding (encoding/hex, encoding/base64), Net (net.SplitHostPort, url.PathUnescape, net/netip) and
--   Http (the header map); Prelude holds the shared lemmas and the type of results.
--
-- How they interact: handle_forward reads the request's headers, takes the client's address from
-- Ingress, opens the seal by Envelope, which validates it, resolves the override, asks Policy, and
-- hands the director's request to the reverse proxy. A handler is a function from the server's
-- configuration and the request to what is forwarded or to the reason for the refusal; an error is a
-- value of a type with a constructor for each error of the code. The configuration is not changed by
-- a request. Reads of a body, and the goroutines that end serve, are a schedule of reads and a step
-- relation, so that a theorem holds whatever the order.
--
-- A string of Go is a list of bytes (Str). The signed numbers of the flags are ℤ of
-- Command.Numbers; the byte limit of the server is a natural number, since one that is not above 0
-- switches it off. Case mapping and trimming of text beyond ASCII are a parameter (Unicode); within
-- ASCII they are computed. The following are parameters too, since they are not code of this
-- repository: the anonymous box and SHA-256 (Crypto), the JSON codec (Codec), the regular
-- expression parser and matcher (Engine) with case folding (Folding), the parsers of addresses
-- (Parsers), url.Parse, the decoder of the override and fmt.Sprintf (World), the resolver
-- (Resolver), the conversion to ASCII of host names (Idna), crypto/x509, encoding/pem and
-- filepath.Join (CertLib), the texts of errors (Texts), and the environment, files and HTTP client
-- of the commands (System, Host, Setting). The order in which Go visits a map is an argument
-- (MapOrder). Random bytes are arguments.
--
-- Loops are structural recursion. The one loop with a bound, the rounds of refuseDotSegments, has the
-- code's own bound of five rounds, and running out of it is the code's own error.
--
-- Delivery joins the parts: what the seal command prints, sent by the client, is injected by the proxy.
--
-- Not modelled: the lines of the log outside of handleForward, TLS handshakes and sockets, the
-- parsing of flags, and the copying of the response's body.
pub mod Prelude
pub mod Text
pub mod Encoding
pub mod Seal
pub mod Net
pub mod Http
pub mod Proxy
pub mod Client
pub mod Command
pub mod Delivery
mod Tests
