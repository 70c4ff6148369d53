-- ===== src/Lib.antt =====
-- A mail service over a reliable datagram protocol, written in Python: the package
-- email-network-service/src. An SMTP server takes messages and files them in mailboxes; a POP3
-- server shows the mailboxes to their owners; both speak over UDP through a stop-and-wait layer
-- with sequence numbers 0 and 1, acknowledgements and checksums.
--
-- The parts, and the files that model them:
--   * Rdt (rdt/): Rdt/Packet is rdt_packet.py; Rdt/Dispatcher is rdt_dispatcher.py, whose thread is
--     a fold over the datagrams, timeouts and errors that arrive (`listen_loop`); Rdt/Sender is
--     rdt_sender.py (`send`, where the dispatcher's thread runs during each wait, and `sendto` may
--     raise in any attempt); Rdt/Receiver is
--     rdt_receiver.py (`start_receiving`, for a number of rounds); Rdt/Channel puts a sender and a
--     receiver at the two ends of a network that loses and repeats datagrams, as a step relation
--     whose confirmations are runs of `send`.
--   * Disk: the files that the service uses, with the calls that may raise (`Faults`), and the
--     paths of config.py. JSON files are the structures they hold. A path is a directory and a
--     name, and is not resolved: that is the file that is meant where the names of users and of
--     messages are single components of a path (`is_component`), as those that the service makes.
--     A user name such as `./bob` or `../x`, which user.py takes, is outside of the model.
--   * Auth (auth/): Auth/User is user.py, Auth/UserManager is user_manager.py.
--   * Common (common/): Common/Logger is logger.py, over a registry of loggers by name, and
--     Common/Exceptions is exceptions.py.
--   * Config: `apply_args` of config.py.
--   * Mailbox (mailbox/, models/email_data.py): Mailbox/Email, with the bodies of a MIME message,
--     Mailbox/Reader (mailbox_reader.py), Mailbox/Writer (mailbox_writer.py) and Mailbox/Storage
--     (storage_manager.py), where Mailbox/Storage/Locks has `get_lock` as steps of threads.
--   * Connections: the senders by address, the dispatcher and the receiver of a server, with
--     `_get_sender`, which both servers have; Connections/Lifecycle has their `start` and `stop`.
--   * Smtp (smtp/smtp_server.py): Smtp/Session has the state of a session and the parser of a
--     command, Smtp/Server the handlers, Smtp/Streams the command stream, the data stream,
--     `_finalize_message`, the reaper and a round of the serve loop, and Smtp/Pool the pool. Its
--     ten workers take the packets from the front of the queue; the next to be processed is any of
--     the ten in front, and each packet is one step.
--   * Pop3 (pop3/pop3_server.py): Pop3/Numbers has `int` and `str`, Pop3/Server and Pop3/Serving
--     the handlers and a round of the serve loop.
--   * Client (smtp/smtp_client.py, pop3/pop3_client.py): Client/Wire has what both clients use of a
--     sender and a receiver, and makes it of Rdt; Client/SmtpClient and Client/Pop3Client have the
--     methods, as actions that return, raise, or wait for a datagram that does not come.
--     Client/Conversation says what is said and heard in which order; the clients' Delivery and
--     Roundtrip put them together with the models of the servers.
--   * Simulation (simulation.py): the statistics, the tasks of the senders, and the check of the
--     mailboxes; Simulation/Setup makes the users and empties the directories.
--   * Prelude: lists, texts, dictionaries, equality and bits. A text is a list of codes, and texts
--     are ASCII. A `dict` is an association list in insertion order; a lookup takes the first.
--
-- State is passed explicitly, one function for each method; a method under a lock is one step.
-- An exception is `none`, or a constructor where the result says more. An object that two parts
-- share is a number (the events of the dispatcher) or a constructor (the line buffer that a running
-- command loop reads). A method handler of the SMTP server gets the session as a value, and its
-- result is put back if the session is still there, which is what the shared object does when the
-- packets are processed one after the other.
--
-- Bounds and fuel: `send` makes at most five attempts, as in the source. The command loop has one
-- round more than the buffer has bytes, and each round takes a line of at least two bytes. `decimal`
-- has one round more than its number. `start_receiving` and the steps of the channel are for any
-- number of rounds. The loop that sends a message in pieces has one round more than the message has
-- bytes, and each takes a byte at least. The loops of the POP3 client that read lines are for any
-- number of rounds; when they are used up the loop still runs. A checksum has 32 bits, and the bytes
-- of the header are tested as `struct.pack` does.
--
-- Parameters: the network (what arrives at each attempt of each reply, or that its `sendto` raises), the calls of the file system
-- that raise, the MIME parser (`parsebytes`), the parts of a MIME message and the decoders of their
-- character sets, `repr`, the origin of a log line that is found on the stack, the numbers of
-- config.py with their test for zero, the clock and the identifiers made of it.
--
-- Not modelled: the calls of the log in the other parts, the to_string methods and what is printed,
-- the sockets themselves, and what the workers of a pool do at the same time to one object: outside
-- of Smtp/Pool and Mailbox/Storage/Locks the packets of the SMTP server, and the tasks of the
-- simulation, are processed in turn. The phases of a whole simulation are not put together.
pub mod Auth
pub mod Client
pub mod Common
pub mod Config
pub mod Connections
pub mod Disk
pub mod Mailbox
pub mod Pop3
pub mod Prelude
pub mod Rdt
pub mod Simulation
pub mod Smtp
