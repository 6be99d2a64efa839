-- ===== src/Lib.antt =====
-- wol-unlock's PC service (pc-service/src/wol_unlock): a phone that was paired with the PC wakes it
-- by a magic packet and unlocks its session by signed HTTP requests.
--
-- The parts, with the file that models each, paths from pc-service/src/wol_unlock:
--   errors.py            Errors: ERROR_STATUS, ApiError, and what calls raise as values of `Result`.
--   crypto/canonical.py  Crypto/Base64, Crypto/Canonical: the strings that are signed.
--   crypto/verify.py     Crypto/Verify: parse_auth_headers, check_timestamp, and the signature.
--   store.py             Store, Store/Statements: each method of `Store` is the statement that it runs
--                        on the tables, under the guard of the connection.
--   ratelimit.py         RateLimit: `RateLimiter.allow` and `_evict`.
--   config.py            Config: MAC addresses, networks, the tables of the file, `load`;
--                        Config/Defaults: the directories, detection, and the first file.
--   pairing.py           Pairing: `PairingManager`. Each block under the lock is one operation, and a
--                        submission that waits for the operator is parked between its two blocks.
--   http/middleware.py   Http/Auth, Http/Envelope: network, rate limit, authentication, the answer.
--   http/handlers.py     Http/Handlers: the body's fields, and the wake targets of a request;
--                        Http/Serve: the wake and unlock handlers; Http/Info: the others, and the
--                        routes of http/server.py.
--   wake.py              Wake: the packet, and the sends to several targets.
--   session.py           Session: the sessions that are listed, the one to unlock, the unlocking,
--                        and its confirmation.
--   netif.py             Netif: the interfaces, those that can be woken, the broadcast address.
--   context.py           Context: the server-info document.
--   control/             Control: server.py and protocol.py, the operator's socket. Control/Devices
--                        resolves a selector, Control/Commands and Control/Dispatch are the
--                        commands, Control/Serve the lines of a connection and their replies,
--                        Control/Events the queue of a client, Control/Lifecycle the socket file;
--                        Control/Client: client.py, the calls of the CLI.
--   service.py           Service: the stages of `Service.start`, and `stop`; with __main__.py, `_run`
--                        and, in Service/Main, `main`;
--                        Service/Sweep: a turn of `_sweep_loop`.
--   identity.py          Identity: `load_or_create`, `_write_private`; Identity/Killed: its steps, and
--                        a kill between two of them.
--   discovery.py         Discovery: what is advertised, and the state of the advertiser.
--   cli/                 Cli: __main__.py, the loop of the pair command and its prompt; Cli/Ago:
--                        render.py, fmt_ago.
--   i18n.py              I18n: both catalogues, `detect_locale`, and `_`.
-- Prelude, Action, Unicode and Value hold what they share: lists and tests over native numbers, code
-- that changes a state and may raise, Python's str, and the values of json and tomllib. Tests has
-- runs at concrete inputs.
--
-- How the parts interact: a request passes the network and rate-limit middlewares, is parsed and
-- verified by Crypto/Verify against the device of the Store, spends its nonce there, and reaches a
-- handler; the envelope turns whatever happened into a signed answer and an audit row. The pairing
-- stores a device after a proof of its key. The control socket drives the pairing and the store for
-- the operator, and the service starts, sweeps and stops them all. The sequences of operations
-- (`Op` and `steps` of Pairing/Submit, `Write` and `writes` of Store/Statements/Replay) stand for
-- the interleavings of the event loop. A run of `authenticate` is one step, and the stop of the
-- service has one place for what is still served, `Stopping.meanwhile`.
--
-- Conventions. A str is the list of its code points and bytes the list of its bytes. The Unicode
-- database, SHA-256, Ed25519, the parsers of `ipaddress`, json, the sockets, loginctl and the clocks
-- are parameters, with their laws as named hypotheses (IsDatabase, IsPlain, IsClock). Messages of
-- errors are left out. The rate limiter counts exact parts of tokens in the place of floats.
-- `to_decimal` runs on fuel of one more than the number, which has fewer digits than that, and the
-- poll of Session/Unlocking on 26 polls, one more than the 200 ms sleeps that fit into 5 s; every
-- other recursion is structural.
--
-- Not modelled: argument parsing and the printing of tables, panels and QR codes; zeroconf and
-- `browse`, which collects what it answers; the set-up of aiohttp and SQLite; the streams and tasks
-- of asyncio; and the reading and writing of files: input and output, or calls of libraries.
pub mod Discovery
pub mod Cli
pub mod Identity
pub mod I18n
pub mod Service
pub mod Context
pub mod Control
pub mod Prelude
pub mod Errors
pub mod Action
pub mod Store
pub mod RateLimit
pub mod Unicode
pub mod Crypto
pub mod Value
pub mod Config
pub mod Http
pub mod Wake
pub mod Netif
pub mod Session
pub mod Tests
pub mod Pairing
