-- ===== src/Lib.antt =====
-- A model of the ITCH 5.0 feed handler for NASDAQ market data, and what is proved of it.
--
-- The program takes network frames (or recorded files), strips the Ethernet, IPv4 and UDP headers,
-- follows the MoldUDP64 session, parses the ITCH messages of each packet and pushes a normalized
-- message for each into a single-producer single-consumer ring buffer. The parts and their files:
--
--   Prelude              numbers, Boolean tests, lists, 64-bit words, raw memory and bits
--   Common/Types         include/common/types.hpp
--   Common/Endian        include/common/endian.hpp; Laws and Reads hold the lemmas
--   Mold/Header          include/moldudp64/header.hpp: `parse` is HeaderParser::parse
--   Mold/Gap             `Gap` and Session::check_gap_fill of include/moldudp64/session.hpp; Missing
--                        reads the gaps as a set of sequence numbers, Ordered keeps them in order
--   Mold/Session         `Session` of include/moldudp64/session.hpp, a definition for each stage of
--                        process_packet; Tracking, Moves, Invariant, Coverage, History and Safety
--                        hold the proofs; Blocks, Delivery, Steps, Streams and Recovery run it on
--                        packets and retransmissions as the MoldUDP64 document writes them
--   Mold/Manager         `SessionManager` of include/moldudp64/session.hpp
--   Spsc/Ring            RingBuffer of include/spsc/ring_buffer.hpp; Queue is its abstract view
--   Spsc/Threads         the loads and stores of the ring's two threads, in any interleaving
--   Spsc/Spin            the spinning push and pop, beside what the other thread does
--   Spsc/Batch           BatchRingBuffer of include/spsc/ring_buffer.hpp
--   Itch/MsgType, Layout, Messages, Size
--                        include/itch5/messages.hpp: the type codes, the packed structs as lists of
--                        field widths, and get_message_size
--   Itch/Callbacks, Parser
--                        include/itch5/parser.hpp: `Parser`, its callbacks and its statistics
--   Itch/Wire            the eight order messages as the ITCH document writes them, independent of the
--                        code
--   Dpdk/Config          include/dpdk/config.hpp: the configuration and the network headers
--   Dpdk/Output, Handler include/dpdk/packet_handler.hpp: `PacketHandler`; Orders runs it from a frame
--                        to the ring, and Recording on an ITCH file; Bounds holds the ranges of the
--                        messages' fields
--   Feed                 `FeedHandler` of src/feed_handler.hpp; Pcap is its PCAP reader, Consumer what
--                        its consumer thread does, and Statistics what print_stats prints
--   Main                 src/main.cpp: the options and the choice of the input; Run is what `main`
--                        does with them
--   Tests                runs on concrete inputs
--
-- How they interact: FeedHandler gives the frames of a PCAP file to Handler.process_raw_packet, and
-- an ITCH file to process_itch_file_data. Handler.process_raw_packet gives the payload to
-- Session.process_packet, whose message callback is Handler.parse_itch_message; that calls
-- Parser.parse_message with the callbacks of Output.setup_parser_callbacks, which push to the ring,
-- from which FeedHandler's consumer pops. The state that a callback changes is passed through
-- explicitly: a session's callbacks act on a type `W`, a parser's on a type `V`.
--
-- Memory: a pointer is the list of the bytes that may be read through it. A read past the end is
-- undefined behaviour, and the call that makes it is `none`; an access outside of the ring's array
-- likewise. Integers are natural numbers with the 64-bit wrap-around written out (add64, sub64,
-- inc64). A packed struct is read with the host's little-endian byte order.
--
-- Loops: those over the messages of a packet recur on the 16-bit message count, those of a batch on
-- its count. The loop over an ITCH file's messages has `len + 1` rounds, since each moves the offset
-- on by 2 or more; the one over a PCAP file's packets has one more than the bytes behind the header,
-- since each takes 16 or more; and the consumer's drain loop has the buffer's capacity of rounds, since
-- each takes an item. It is proved that these are enough.
--
-- Threads: the ring's calls are modelled as sequences of single loads and stores, and a schedule gives
-- the turns of the two threads. Acquire and release are taken to give a single order of these steps.
-- The spinning calls and the consumer's loops are modelled at the level of whole calls, with what the
-- other thread does between two of them as an argument.
--
-- Not modelled: thread creation, affinity, timing, sleeping, and printing but for the statistics'
-- numbers; weaker memory orders;
-- callbacks and allocations that throw; and DPDK itself, for which the source has a mock mbuf.
-- getopt_long and stoi are parameters of Main, and so is what a file name opens; a file is its bytes.
-- A signal comes, or does not, in each second that `main` waits.
pub mod Prelude
pub mod Common
pub mod Mold
pub mod Spsc
pub mod Itch
pub mod Dpdk
pub mod Feed
pub mod Main
pub mod Tests
