-- ===== src/Lib.antt =====
-- se-scope-target is the target side of an oscilloscope for the variables of an embedded program: it
-- samples memory locations into channels, waits for a trigger condition, and sends the samples to a
-- host, which configures it by commands.
--
-- The parts, from the transport to the samples:
--   * the framing layer (src/Communication/Interfaces/FramedIO.c) cuts messages out of a stream of
--     bytes and frames those that are sent;
--   * the serializer and the controller (src/Serialisation, src/Control) turn a received message into
--     a command on the scope, and an event into a packed message; the encoding is that of protobuf, by
--     nanopb (src/Serialisation/Protobuf);
--   * the scope (src/Core/Scope.c) polls its channels (src/Core/Channel.c) at the times that its
--     timestamper (src/Core/Timestamper.c) decides, and runs its trigger (src/Core/Trigger.c), which
--     hands full buffers over to be packed.
--
-- The files:
--   * Prelude: names of the libraries, Boolean tests, lists over native numbers, machine words.
--   * ScopeTypes: the enums and structs that the parts share. Enums that the code casts from received
--     numbers are numbers.
--   * SeLib: the ring buffers and streams of se-lib-c and the target's floats, as records of operations
--     and of the behaviour that the code relies on; SeLib/Models has concrete ones.
--   * FramedIo: the struct FramedIOPrivateData as its two halves, `Rx` and `Tx`. FramedIo/Frame says
--     what a frame is. FramedIo/Receive has FramedIO_putRxData and its checks as `put_rx_data`, and
--     below it an automaton that takes one byte at a time. FramedIo/Transmit has runTx,
--     FramedIO_getTxData and the rest of the sender. FramedIo/Delivery joins the two, and
--     FramedIo/Transceiver is the interface of the transport.
--   * Core/Channel, Core/Timestamper, Core/Trigger, Core/Scope: a record for each struct, and a
--     function for each function of the source, in snake_case without its prefix. A trigger works on
--     the channels and the timestamper of its scope, so its functions pass the three as a `Rig`. The
--     memory that channels sample and the reference counter are arguments of a poll. The messages that
--     an observer is told are a list in the result. An index out of range or a stream that was never
--     set is the result `none`. Core/Channel/Faults and Core/Scope/Faults have the poll once more with the
--     faults of its pointers, a channel's address and the observer; Core/Scope/Calls is about that one.
--     Core/Scope/Interface is the interface that the scope fills.
--   * Control/Commands: the commands with their parsers and dispatcher; the functions `run` of the
--     source are `run_addr` and so on, and what the unpacker returns is an argument. Control/Controller:
--     runRx and runTx with the observers. Control/AnnounceStorage: the storage of announced addresses.
--     Control/Pack: the commands that pack a message, with the calls on the packer as a list.
--   * Nanopb: the encoder and decoder of nanopb as records of operations and of their documented
--     behaviour; Nanopb/Models has concrete ones.
--   * Serialisation/Packer: NanopbPacker.c, from the runs of bytes that its callbacks write to `pack`;
--     below it what `pack` writes (Data, Messages), the announced lengths (Width) and the sizes of
--     messages (Size). Serialisation/Unpacker: NanopbUnpacker.c with the arrays of its callbacks.
--     Serialisation/Serializer: Serializer.c; Rx joins it with the framing layer and the commands, Tx
--     with the command that adds the samples.
--   * Builders: the runnables of a scope, and src/Builders/ScopeRunner.c. Builders/Threads:
--     ScopeThreadRunner.c as two threads in steps of one call each, in any interleaving.
--     Builders/Receiving and Builders/Sending: the two halves of a pass over the parts themselves, in
--     the way that the builder connects them.
--     Builders/Builder and Builders/Stack: ScopeBuilder.c and ScopeFramedStack.c, which make the parts.
--
-- Fuel: the do-while loop of FramedIO_putRxData is the only one that need not end; `put_loop` takes
-- fuel for it, a round for each pass. Each pass takes a byte or ends the loop unless the receiver is
-- stuck, so that one round more than there are bytes is enough.
--
-- Integers: uint16_t and uint32_t wrap by `u16` and `u32`; a size_t that counts bytes in memory is not
-- wrapped. Samples are read as on a little-endian target.
--
-- Memory: but for Core/Channel/Faults, Core/Scope/Faults and Core/Scope/Calls, each address that a running
-- channel samples can be read, and the pack observer of the scope is attached, as the builder does it.
--
-- Not modelled: malloc and destructors, where a field that a constructor does not set is an argument;
-- the generated protobuf code, but for the numbers of its fields and its sizes; nanopb and se-lib-c,
-- which are parameters; the pointers of the interfaces, which hand calls on; and the tables of
-- ParserDefinitions.c, which nothing reads.
pub mod Prelude
pub mod ScopeTypes
pub mod SeLib
pub mod FramedIo
pub mod Core
pub mod Control
pub mod Nanopb
pub mod Serialisation
pub mod Builders
