-- ===== src/Lib.antt =====
-- Verification of sponge's utility library (libsponge/util), which the network stack stands on.
--
-- The parts, and the files that model them:
--   * Buffers: libsponge/util/buffer.hh and buffer.cc. Buffers/Buffer is `Buffer`, a string with a
--     prefix discarded; Buffers/BufferList and Buffers/BufferViewList are the queues of buffers
--     and of string views. A shared string is never written, so sharing it is a copy. Each
--     Contents module relates the operations to the bytes that the object stands for.
--   * Parser: libsponge/util/parser.hh and parser.cc. Parser/ParseResult is the enum and
--     `as_string`, Parser/NetParser and Parser/NetUnparser the classes; the template argument is
--     the width in bytes. Parser/BigEndian is the independent description of the encoding, and
--     Parser/RoundTrip puts the two classes together.
--   * InternetChecksum: the class of libsponge/util/util.hh and util.cc. Sums is the description
--     by 16-bit words, Folding the loop of `value`, Verification what the checksum is for.
--   * SystemCall: `SystemCall` of libsponge/util/util.cc.
--   * Kernel: the system calls themselves, which are no code of the repository: a record of
--     functions on a state of its own, over which all else is stated.
--   * Machine: the kernel with the FDWrapper objects of libsponge/util/file_descriptor.hh. A
--     handle, `shared_ptr<FDWrapper>`, is a place in the list of objects, and an object keeps the
--     count of its owners. An object whose count is 0 is gone and using it is a fault.
--   * FileDescriptor: libsponge/util/file_descriptor.hh and file_descriptor.cc. Handles says when
--     a handle is good to use; Checking, Writing, WriteAll and Sending are about `write`, Reading
--     about `read` with Resizing for its strings, Lifetime about `duplicate` and the destructors,
--     Flags about `set_blocking`, by the binary digits of Common/BinaryDigits.
--     Owners counts the owners of all objects, Keeping and Making say which methods leave the
--     counts as they are and which make one object more, and Scoped is what the language does with
--     a local variable at the end of its block.
--     Streams has a stream between two descriptors, and calls of `write` and `read` at its ends.
--     Construction is what the language does when a constructor throws: the members that are made
--     already are destroyed. History says how objects may change, Steps and Transfers what each
--     method does to them, and Sequences what any calls in any order do.
--   * EventLoop: libsponge/util/eventloop.hh and eventloop.cc. A `std::function` is a name, and a
--     record of the client's gives what the functions behind the names do to the world: the
--     machine, the loop's rules and a state of the client's own. Ownership counts which rules hold
--     which objects, Entries is about the first loop of `wait_next_event`, Safety about all of
--     it, PollErrors about a failing poll. Serving describes what is to be polled and which
--     functions are to be called; Entering, Attentive and Progress show that they are.
--   * Address: libsponge/util/address.hh and address.cc, on byte images whose layout is the
--     system's, as are `htobe32` and `be32toh`. Numeric is about numbers in network byte order and
--     equality; Resolver has the constructors and conversions that go through the system's
--     resolver, whose two functions are a record.
--   * Socket: libsponge/util/socket.hh and socket.cc. A socket is a handle; SocketCalls is the
--     record of the system calls on sockets, on the kernel's state. Socket/Verifying is about
--     taking over a descriptor, Registers about `shutdown`, UdpSocket and TcpSocket about the two
--     subclasses.
--   * TunTap: libsponge/util/tun.hh and tun.cc, with `open`, `ioctl` and the layout of `ifreq` in
--     a record of parameters.
--   * Hexdump: hexdump of libsponge/util/util.cc. Hexdump/Layout is an independent description of
--     what is printed, Steps and Printing show that the loop prints it.
--   * Webget: apps/webget.cc, main and the placeholder that it calls.
--   * Doctests: the programs of doctests. UdpExchange, TcpExchange and LocalPair are the three
--     examples of socket_dt.cc (SocketTest), ParserTest is parser_dt.cc and AddressTest is
--     address_dt.cc. A local variable that is a socket is made, and `scoped` is the rest of its
--     block. Messages and Tidiness follow the owners of the objects through the examples, by
--     FileDescriptor/Owners, Keeping, Making and Scoped, and by Socket/Owners. What address_dt
--     writes to the standard error is the exception whose text it is.
--
-- `FileDescriptor::write` takes a BufferViewList and uses its `as_iovecs`, `size` and
-- `remove_prefix`; the parser holds a Buffer and uses its `at`, `size` and `remove_prefix`.
--
-- Numbers. `size_t` arithmetic is modulo 2 ^ 64 (Common/Words), the checksum's sum modulo 2 ^ 32
-- and a parsed field modulo 2 ^ (8 * width). Signed numbers are ℤ of Common/Int, with the
-- conversions between `int`, `ssize_t` and `size_t` written out. Bytes are numbers.
--
-- Exceptions are values (Common/Exceptions). A method that may throw after it has changed its
-- object returns the object beside the outcome. Undefined behaviour is the outcome `fault`.
--
-- Loops are structural, but for three. `InternetChecksum::value` recurs on the order of the
-- numbers. The loop of `write` has one round more than there are bytes as fuel: a round that writes
-- nothing while bytes are left throws, so the outcome `diverges` is never reached. The first
-- loop of `wait_next_event` has fuel as an argument, since callbacks may add rules; if they add
-- none, one round more than there are rules is enough. The second loop goes along `pollfds`,
-- and a rule beyond its end is the fault of an index out of bounds.
--
-- An iterator of the list of rules is a place in the list. Callbacks may add rules at the end; a
-- callback that makes the event loop erase rules while `wait_next_event` runs is not modelled.
--
-- Text is bytes in ASCII. Common/Formatting is what the code uses of the output streams, and
-- Common/Stoi is `std::stoi`. The fuel for the digits of a number is 32, as many
-- as an `int` has bits; the loop of hexdump goes along the bytes, and faults where its
-- `int` overflows.
--
-- Timestamp and RandomGenerator are timestamp_ms and get_random_generator of util.cc, with the
-- clock and the random device as parameters. ByteStream and StreamReassembler are the classes of
-- libsponge/byte_stream.cc and stream_reassembler.cc, most of whose methods are placeholders.
--
-- Not modelled: the tests. Exhausted memory, threads, and the freeing of the resolver's list. The
-- texts of `tagged_error` and `unix_error` are not built: an exception holds what was attempted and
-- the code.
pub mod Common
pub mod Buffers
pub mod Parser
pub mod InternetChecksum
pub mod SystemCall
pub mod Kernel
pub mod Machine
pub mod FileDescriptor
pub mod Hexdump
pub mod Timestamp
pub mod RandomGenerator
pub mod ByteStream
pub mod StreamReassembler
pub mod EventLoop
pub mod Address
pub mod Socket
pub mod TunTap
pub mod Webget
pub mod Doctests
