-- ===== src/Lib.antt =====
-- A Redis server in C++: it listens for TCP connections, reads a request in the RESP format,
-- routes it to a command, runs the command on one shared in-memory database, and writes the
-- reply. BLPOP may leave its client blocked until another client pushes on the list or a timer
-- runs out.
--
-- How the parts interact, and which file models which:
-- In src/resp, the wire format. Resp/BulkString, Resp/SimpleString, Resp/Integer and Resp/Array
-- are the four classes, each with encode, decode and, where the class has it, to_resp.
-- Resp/Decimal is std::to_string and the digit loop that every decoder repeats; Resp/Buffer is
-- the encoders' buffer with resize, memcpy and strlen.
-- In src/database.hpp and src/database.cc, the database. Database.antt has the record of its
-- members and one function for each method and for each timer callback (set_value_timed for
-- setValue, and set_value for what it does unless its time overflows the clock, on_expire for the
-- callback that it gives to async_wait, and so on); Database/Vectors has the loops and index
-- computations on one vector, Database/Table the unordered_map. Database/History has the
-- operations of the class as data and runs any list of them, for the theorems on whole histories.
-- The two overloads of setList are set_list_value and set_list, those of removeListValue are
-- remove_list_value and remove_list_values.
-- In src/commands: Commands/Classes has a record and the constructors of each command class, and
-- Commands.antt serve_request for their serveRequest; the reply callback is the list of replies,
-- with the session that each answers. Commands/Router is router.cc, Commands/Stoll is std::stoll.
-- Commands/Store is an abstract store of values, lists and queues of waiting clients, the
-- specification of every command, which knows no database, no handlers and no bytes but those of
-- requests and replies; Commands/ListStore is its part for the commands on lists. It promises
-- what the code does, also where that is not what Redis does: a second SET keeps the first value,
-- LPUSH reverses the list, a push serves one waiter.
-- In src/server/server.cc: Server/Request is get_num_commands and the methods parse_command and
-- handle_request of tcp_connection; Server/Loop is the loop of asio, as a sequence of the
-- completion handlers that change the database, which the environment chooses, where a read takes
-- at most the 1024 bytes of data_, with Server/Loop/Store for the requests of Commands/Store from
-- bytes to bytes. Server/Connection is the class tcp_connection and the acceptor: for each
-- connection the reads under way, the member message_ and whether it is being written, with one
-- function for each method and for each callback (on_read for the callback of do_read, on_write
-- for that of send_response and do_write, handle_accept, and on_waiter_timer for a waiter's
-- timer, whose handler writes to a connection). Server/Connection/Steps has the steps as a
-- relation: the environment chooses which operation ends, with an error or without, and what a
-- read brings; the states reached carry the list of the connections that have failed.
-- Server/Start is src/server/server.hpp, with make_server and the two init_server of
-- src/server/server.cc: the two kinds of server, and how one comes to its event loop.
-- In src/client, the client with which a replica greets its master: Client has connect, ping and
-- send_array_command on a socket, whose reads return what the environment chooses; Server/Replica
-- is ReplicaServer::connect_to_master of src/server/server.cc. Server/Config is main in
-- src/main.cc behind parse_args, which makes the port and the configuration of the options; what
-- argparse gives for them is a parameter.
-- Prelude and its children: shared names, lists and integers over the native numbers, bytes, and
-- Outcome. Tests: the theorems at concrete inputs.
--
-- A call returns, throws one of the exceptions of the program, is undefined, or never returns
-- (Outcome): a read of the client that the other end does not answer never returns. Undefined
-- are: signed overflow, also in the time of a timer, front and back of an empty vector, an index
-- beyond a vector, a read or write outside a buffer, a loop over a C string that leaves it.
-- Strings and buffers are lists of bytes; a pointer into a buffer is the bytes from it to the end
-- of the buffer, so that positions are compared as numbers, also where C++ leaves a comparison
-- beyond the end undefined. int and long long are integers with their bounds written out: the
-- accumulators of the decoders overflow where they pass the bound, and conversions to int wrap
-- modulo 2^32.
--
-- No function takes fuel but the printing of decimals: a number n is printed with fuel n + 1, and
-- has fewer digits than that.
--
-- Parameters of the model: the type double with std::stod, the test for a positive timeout and
-- the conversion to milliseconds, and of the clock which times it can hold (Floating); the
-- network, which for a host and a port gives a connected socket or an exception (Network);
-- whether a port can be bound (Binding). The order of events, and whether a timer callback finds
-- its timer cancelled, are chosen by the environment: nothing is assumed of asio but that it
-- calls one handler at a time. The sessions are numbers, in the order in which their connections
-- are made.
--
-- Two writes at once on one connection, and a change of message_ while it is being written, count
-- as undefined. A connection is a shared pointer that the operations under way and the queued
-- handlers hold: when none is left the object is destroyed and its socket closed, which the model
-- does not show. A client that has failed may still be queued, and a push then answers it.
--
-- Not modelled: the sockets and the loop of asio, but for what is under way on them; a write of
-- the client that fails otherwise than the read behind it; the bound of 4096 bytes on what a read
-- of the client brings; the parsing of the command line by argparse (main.cc); logging; limits of
-- memory; the characters above 127 of isdigit and toupper, which are taken to be no digits and no
-- letters. The classes KeyDoesnotExist and WrongFormatException are never used. The Python
-- scripts, the JSON descriptions of commands and the build files are not part of the running
-- program.
pub mod Prelude
pub mod Resp
pub mod Database
pub mod Commands
pub mod Client
pub mod Server
pub mod Tests
