-- ===== src/Lib.antt =====
-- Verification library of madbfs, a FUSE filesystem over adb.
--
-- The program has a client (madbfs: FUSE operations, a file tree, a page cache, connections) and an
-- optional server on the device (madbfs-server); the two speak the protocol of madbfs-common. The
-- file tree answers a FUSE call from its nodes, the cache keeps pages of files, and both ask a
-- connection for what they do not have; the proxy connection is a client of the protocol.
--
-- What models what:
-- - Prelude: shared names, tests, lists over the native numbers, 64-bit signed integers.
-- - Rpc (madbfs-common/src/rpc.cpp, madbfs-common/include/madbfs-common/rpc.hpp): Rpc/Wire is
--   to_net_bytes and from_net_bytes for both byte orders of a host; Rpc/Payload is PayloadBuilder and
--   PayloadReader, whose index arithmetic is that of a 64-bit usize and whose reads past the end are
--   the outcome `undefined`; Rpc/Request and Rpc/Response are the messages, the visitors of send_req
--   and send_resp, parse_request and parse_response; Rpc/Frame is the builders' headers, send_resp and
--   the header reads; Rpc/Server is Server::listen; Rpc/Client is Client::send_req, Client::receive
--   and the handler that Client::start runs when receive ends. A socket is the list of the bytes that
--   arrive before it fails. The loops take fuel; one round more than there are bytes is enough.
-- - Split (madbfs-common/include/madbfs-common/util/split.hpp): StringSplitter, split, split_n, strip.
--   Split/Words is the words of a text, Split/Join is texts made of words.
-- - FilePath (madbfs/src/path.cpp, madbfs/include/madbfs/path.hpp): create, create_buf, parent_path,
--   iter, extend, rename, resolve. FilePath/Parts is about extend and rename, FilePath/Up (with Up/Texts) about
--   parent_path; FilePath/Resolve and FilePath/Iter are resolve and iter, and
--   Resolve/Normal describes what resolve returns.
-- - Cache (madbfs/src/data/cache.cpp, madbfs/include/madbfs/data/cache.hpp): Cache/Page is Page; Cache/State
--   is the list, the table and evict; Cache/Spans is which part of a page a request uses; Cache/Access
--   is read and write, Cache/Flush is flush, shutdown and what drops pages, Cache/Truncate is truncate;
--   Cache/Evict is about evict and shutdown, Cache/Consistent and
--   Cache/Maps about the list and the table.
--   The connection is a parameter. Operations run one after the other, so no page is on its way.
-- - Tree (madbfs/src/tree/node.cpp, madbfs/src/tree/file_tree.cpp, madbfs/include/madbfs/tree): a node is
--   an entry of a store of addresses; the connection and the cache are part of the state. Tree/Data is
--   Regular, Directory and Stat, Tree/Exec the state and how operations are chained; Tree/Node is what a
--   node does alone and Tree/Calls what it does with the device and the cache; Tree/Paths is traverse and
--   traverse_or_build, Tree/Files the operations of FileTree. Data/Finite, Agree, Descriptors, Times,
--   Moves and Exchange are about them; Grows, Lookups, Build and Reach have the lemmas behind Agree.
--   `hops` is fuel for links that lead to paths with links, without which an operation is unfinished; one
--   is enough for a file that is no link. `destroy` has as much fuel for the depth as there have been
--   addresses.
-- - Proxy (madbfs/src/connection/server_connection.cpp, madbfs/include/madbfs/connection): ServerConnection
--   over a client that is a parameter; Proxy/Calls is its operations, Proxy/Reconnects and Proxy/Buffers
--   are about send and read.
-- - Handlers (madbfs-server/src/server.cpp): the request handlers over the system calls, which are a
--   parameter; Handlers/Calls is the handlers, Handlers/Replies and Handlers/Copies are about them. The
--   loops over a directory and over a file that is copied take fuel for their rounds.
-- - Fuse (madbfs/src/operations.cpp): the operations that FUSE calls, over the file tree; Fuse/Stat is the
--   stat that getattr fills, Fuse/Calls the operations, Fuse/Again and Fuse/Blocks are about getattr.
-- - Control (madbfs/src/madbfs.cpp, madbfs/src/data/ipc.cpp): the control socket. Control is ipc_handler,
--   send and receive, Control/Peer is parse_msg and handle_peer over the JSON library, a parameter;
--   Control/Sizes and Control/Messages are about them, with Cache/Sizes.
-- - Adb (madbfs/src/connection/adb_connection.cpp, madbfs/src/connection/connection.cpp,
--   madbfs/src/cmd.cpp): the connection that runs adb, over the process as a parameter. Adb/Command is exec
--   and the reading of its messages, Adb/Texts what is printed and parsed, Adb/Names the words of the
--   commands, Adb/Calls the operations, Adb/Devices list_devices; Adb/Numbers and Adb/Lines are
--   about them, with Split/Fields. The recursion of decimal on the number has fuel for one digit more than
--   its value, which is enough.
-- - Rpc/EndToEnd puts the client and the server of the protocol together.
--
-- Not modelled: how a process is started; how the proxy connection starts the server, and its handshake
-- with it; whether a directory of the device has an end; main, init and
-- destroy, the command line and logging; the loops that accept connections; the JSON and the date
-- library; allocation failure and exceptions. Coroutines run to completion one after another; where
-- that leaves something out, the file says so.
pub mod Adb
pub mod Cache
pub mod Control
pub mod FilePath
pub mod Fuse
pub mod Handlers
pub mod Prelude
pub mod Proxy
pub mod Rpc
pub mod Split
pub mod Tree
