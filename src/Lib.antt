-- ===== src/Lib.antt =====
-- Verification of the mail servers of this repository: the SMTP server (server/, proto/Smtp*),
-- the base64 codecs it uses (base64/), the parser of messages (mime/), the repositories of both servers
-- (database/), and of the IMAP server (imap-server/) the command parser and the handlers of commands.
--
-- The SMTP server reads lines from a connection. server/server_main.cpp hands each line to
-- `SmtpSession::ProcessLine`, sends the reply, upgrades the connection to TLS after STARTTLS, and stops
-- when the session is closed. The session parses a line (server/SmtpParser.cpp), keeps its state
-- (proto/SmtpSession.hpp), checks credentials, which are decoded by `DecodeBase64`, and delivers
-- messages through the repositories of database/. The IMAP server parses a command and gives it to the
-- handler of its kind, which reads and changes the same tables, and the files of the messages, which
-- it parses with mime/.
--
-- Prelude      names of the libraries passed on, lists and byte strings over the native numbers, the
--              integers and the shifts of the base64 codecs. A `std::string` is a list of its bytes.
--              Search: `std::string::find` of a text.
-- Effects      code over a world that may throw. Ensures: postconditions of such code.
-- Database     Rows: database/Entity. Engine: tables, SQL statements that may be refused, and
--              database/Transaction.h. Queries: the clauses of SQL. FolderDal, MessageDal,
--              RecipientDal, UserDal: database/DAL. Repository: database/Repository, a module for each
--              part of MessageRepository.cpp and one for UserRepository.cpp. Rules, Selection,
--              Keeping: reasoning on this code and on rows. Counters, Storing, Moving, Copying,
--              Expunging, Cascade, Operations, Accounts, Invariant, Delivery, ExpungeSound,
--              FlagChanges: proofs.
-- StringUtils  common/utils/StringUtils.cpp: `Trim`. Wrap: `FindUtf8SafeEnd` and `WrapText`.
--              WrapSound: proofs.
-- Base64       Alphabet: base64/include/Base64Common.hpp and AttachmentConfig.hpp. Encoder, Decoder,
--              StreamEncoder, StreamDecoder, Attachment: the files of base64/src. Groups, RoundTrip,
--              Bounds: the one-shot codecs. Stream, StreamTrip, Faults: the stream codecs.
-- Mime         Decoder, Utf8, Encoder: mime/src/MimeDecoder.cpp and MimeEncoder.cpp. Headers, Parser,
--              Structure: mime/src/MimeParser.cpp. Email: mime/include. Totality, StructureTotality,
--              Message, Lookup, QuotedPrintable, Words, HeaderTrip: proofs.
-- Smtp         Command, Parser, Response: proto/SmtpCommand.hpp, server/SmtpParser.cpp,
--              proto/SmtpResponse.hpp. State: the members of `SmtpSession`. Save: `SaveMessage`.
--              Session: the handlers and `ProcessLine`; each returns the new session and the reply.
--              Connection: the loop of server/server_main.cpp. Services: the repositories, files and
--              clocks that the session calls, an interface. Invariant, Audit, Lines, Delivery, Login,
--              Exchange, Envelope, Transfer, Rounds, Channel: proofs.
-- Imap         Command: proto/ImapCommand.hpp and the tables of names in imap-server/src/ImapUtils.cpp.
--              Elements, Parser: `ElementParser` and `Parse` of imap-server/src/ImapParser.cpp.
--              Response: proto/ImapResponse.hpp. Session: proto/ImapSessionTypes.hpp, the members of
--              `ImapCommandDispatcher`, and its handlers for the session and the selected mailbox.
--              Mailboxes, Status: its handlers for the mailboxes of a user. Store, Copy, Fetch: its
--              handlers for messages. Sequence, Dates, Bodies, Envelope, BodyStructure: what these use of
--              imap-server/src/ImapUtils.cpp. Items: the data items of FETCH. Dispatch:
--              `Dispatch`, and `HandleCommand` of imap-server/src/ImapSession.cpp. Quoting, Suffix,
--              Totality, Commands, Guards, MailboxesServe, StoreServes, FetchServes, Serving, Access,
--              UidSets, Weekdays, Sections, Unauthenticated: proofs.
--
-- Texts go to SQLite by `c_str()` with the length -1: a row and a search have them up to their first NUL.
-- The name of a day of which the sum overflows an `int` is a parameter, too.
--
-- SQL is read as a language: a SELECT, INSERT, UPDATE or DELETE of database/DAL is a function of the
-- tables, with the constraints of database/scheme. Which calls SQLite refuses is an input. A
-- repository operation is one step: that another thread runs between its reads and its writes is
-- not modelled. libsodium is a parameter of the users' operations. The two repositories share one
-- `last_error`. Ids and UIDs count up from 1, so they are natural numbers.
--
-- Fuel. `cascade` of Database/FolderDal runs on the number of folders: each generation of folders
-- but the last takes one. `read_loop` of Base64/Attachment runs on one more than the length of the
-- file: each round but the last takes at least one byte. `group_loop` of Imap/Elements runs on the
-- length of the text, of which each round takes a byte. `args_loop` takes its fuel as an argument: the
-- number of arguments or the length of the text is enough, but where an unmatched `)` keeps the loop
-- of the source from ending. `wrap_loop` of StringUtils/Wrap runs on the length of the text; that it
-- returns is part of its theorem. `process_mime_part` and `parse_part_structure` of Mime run on the
-- length of the text, since each part is shorter than the body that it stands in, and are proved to
-- return. `word_loop` of Mime/Decoder runs on the length of the text, of which each round that goes on
-- passes six bytes; `encode_loop` of Mime/Encoder on the length too, where an empty part is a loop that
-- goes on for ever. A range of a sequence set is pushed on the room of a `Machine`, which the
-- handlers take: how many elements a vector can hold, beyond which `push_back` throws, and what `++i`
-- gives at INT64_MAX, which C++ does not define. The other loops are structural.
--
-- Files are read whole: a function from paths to contents, or nothing where a file cannot be opened.
-- The boundaries that `MimeBuilder::GenerateBoundary` draws are parameters.
--
-- Not modelled: sockets, TLS and threads (inputs of the connection loop), the search for messages by
-- text and the connections to SQLite, the MIME builder, the reading and writing of an IMAP session, the mail
-- user agent, the HTTP server, logging and configuration. The SMTP session takes
-- the MIME parser from an interface. Sizes are natural numbers: the limits keep them far below 2^64.
pub mod Prelude
pub mod Effects
pub mod Database
pub mod StringUtils
pub mod Base64
pub mod Mime
pub mod Smtp
pub mod Imap
