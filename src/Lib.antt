-- ===== src/Lib.antt =====
-- yyb_go: a model of the local WeChat account service, and its laws.
--
-- The program is one HTTP service on the local machine. internal/httpapi answers the requests behind
-- an access control; it keeps the accounts in internal/store, logs them in by QR code through
-- internal/qr, and talks to the WeChat servers through internal/protocol: an mmtls connection of
-- records, whose payloads are protobuf messages, compressed with LZ4 where they are large.
-- internal/scriptrunner runs Python scripts, on request or by a cron schedule, which in turn call the
-- service.
--
-- Which file models what:
--   Prelude                the names, lists, Boolean tests, maps, texts and outcomes that all share.
--     Prelude/Text         the functions of strings, strconv and net/url that the code calls.
--     Prelude/Map          Go maps as association lists; where the code ranges over a map, the order
--                          of the list stands for the order that the range takes.
--     Prelude/Outcome      a result, an error, or a panic.
--     Prelude/Hex          encoding/hex.
--   Protocol/Varint        internal/protocol/bytes.go: varint, readVarint.
--   Protocol/Protobuf      internal/protocol/bytes.go: pbLen, pbVar, pbParse.
--   Protocol/Lz4           internal/protocol/bytes.go: lz4AllLiteral, lz4Decompress.
--   Protocol/Record        internal/protocol/mmtls_protocol.go: buildRecord, parseRecords.
--   Protocol/Record/Client internal/protocol/mmtls_client.go: nextRecord; the connection is the list
--                          of what its reads will return.
--   Protocol/Handshake     internal/protocol/mmtls_protocol.go: buildHandshake, splitHandshake,
--                          buildFinished, parseFinished, parseNewSessionTicket.
--   Protocol/Hello         the same file: buildClientHello, buildPSKClientHello, parseServerHello,
--                          extractKeyShares.
--   Protocol/Shortlink     the same file: buildShortlink, parseShortlink.
--   Protocol/WpkgHead      internal/protocol/ilink.go: wpkgHead, decodeWpkgHead.
--   Protocol/Values        internal/protocol/loginbuffer.go, pool.go: values of the type any, as JSON is
--                          decoded to; a number is an integer.
--   Protocol/LoginBuffer   internal/protocol/loginbuffer.go: the credentials and their renewal.
--   Protocol/Json          encoding/json on values of the type any: the numbers come back as float64s.
--   Protocol/Pool          internal/protocol/pool.go: toBlob, sessionFromBlob.
--     Pool/State           the same file: state, run, Invalidate, over the store, where a uin stands as the
--                          64-bit pattern of an int64.
--   Protocol/NewDns        internal/protocol/newdns.go: parseDomainList, serversFor, the targets.
--     NewDns/Cache         the same file: getDNSParsed.
--   Protocol/Socks         internal/protocol/transport.go: socks5Connect. A connection is the bytes that it
--                          gives and takes; an entry of `faults` says whether the next write fails.
--   Store                  internal/store/store.go: the tables as lists of rows, and the calls of the
--                          engine; an entry of `faults` says whether the next call fails.
--     Store/Rows           the WHERE clauses of its statements.
--     Store/Accounts       UpsertAccount, GetAccount..., SetAccount..., ListAccounts.
--     Store/Deletion       DeleteAccount, resetAutoincrementIfEmpty.
--     Store/Resolve        ResolveAccount.
--     Store/Sessions       GetSession, PutSession, InvalidateSession.
--     Store/Steps          any sequence of these calls, as a relation.
--   ScriptRunner/Cron      internal/scriptrunner/cron.go: parseCron, match, next.
--   ScriptRunner/SplitArgs internal/scriptrunner/runner.go: SplitArgs.
--   ScriptRunner/Runner    internal/scriptrunner/runner.go: RunArgs, finish, StopRun, Stop. A run state
--                          is shared by two parts of the code, so it stands in a store.
--     Runner/Schedules     the same file: SetSchedule, ClearSchedule, Delete, the file of the schedules,
--                          schedulerTick and nextWakeDelay.
--     Runner/Steps         any sequence of these calls, as a relation.
--   HttpApi/Auth           internal/httpapi/auth.go: sessions, failed logins, isAPIRequest, safeNext.
--     Auth/Handlers        the same file: requireBrowserSession, handleLogin, handleLogout.
--   HttpApi/KeepAlive      internal/httpapi/keepalive.go: refreshAccount, over the store and the renewal.
--     KeepAlive/Round      the same file: refreshDueAccounts, keepAliveShouldSkip and the retry times.
--   ServiceConfig          internal/serviceconfig/config.go: Load, with its checks and defaults.
--     ServiceConfig/Paths  filepath.Clean, filepath.Base and net.SplitHostPort, which it calls.
-- The child modules of these hold the proofs, named for what they prove, and the tests.
--
-- Integers: a byte is a number below 256 and a text a list of bytes or of code points. Shifts of uint64s
-- and the conversion of a length to an int keep their wrap-around; the lengths of slices are taken to be
-- below 2 ^ 63. Times are numbers, of nanoseconds or of seconds as each file says.
--
-- Fuel: pbParse and lz4Decompress take a byte or more in each round, so the length of the input is
-- enough; so do the loops of decodeWpkgHead and extractKeyShares, and parseRecords takes five or more.
-- The loop of next makes at most one round for each minute of its 366 days, and one to leave it. A number
-- of 64 bits has 11 binary digits more than a float64 at most.
--
-- Atomicity: each call of the runner, of the login and of the store, each refresh of an account and each
-- state of the pool is one step. The code holds its mutexes for less than that, so two calls that overlap
-- are not covered; the workers of the keep-alive run one after the other. The current time, the token
-- that the random generator draws, the ids that the database draws, the local calendar, the letters and
-- numbers of Unicode, encoding/json where the store calls it, and what the disk, the processes, the
-- servers and the engine of the database answer are arguments. A write of a file that fails may leave
-- anything in it.
--
-- Not modelled: the key schedule of mmtls, the other parts of ilink, the login over the long link, the
-- rest of the transport, the QR login, the opening of the database and the renaming of an old table, the
-- ticker of the keep-alive and the other handlers. The cipher suites, the database and the router are
-- libraries; the pages are constant texts.
pub mod Prelude
pub mod Protocol
pub mod ScriptRunner
pub mod ServiceConfig
pub mod Store
pub mod HttpApi
