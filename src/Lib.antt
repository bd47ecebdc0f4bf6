-- ===== src/Lib.antt =====
-- A verification library of the sender and the receiver of the RaptorQ demo, which send the segments
-- of a stream over UDP in the packet format of ATSC ROUTE, and write them to files.
--
-- The parts of the program, and the files that model them:
--
-- Params: utils/param_deriv.c derives the code parameters of a file from its size. `ceildiv` and
-- `param_deriv` are the functions of these names, on integers whose overflow is a fault. Params/Exact
-- compares them with the exact quotients.
--
-- HashTable: the hash table in receiver/codeblockstate.c. `probe` is the loop of
-- `codeblockstate_add_sym`. HashTable/Probing is about one search, HashTable/Index about the table as
-- a set of symbols.
--
-- CodeBlock: receiver/codeblockstate.c and receiver/codeblockstate.h, the symbols received of one code
-- block. `init` is `codeblockstate_init` and `add_sym` is `codeblockstate_add_sym`. CodeBlock/Codec is
-- the record of the calls of the RaptorQ library, which is a parameter. CodeBlock/Data is
-- `codeblockstate_get_data`. CodeBlock/Erasure states what each call of that library does, as far as
-- the program relies on it: the laws of a systematic erasure code, over a view of the memory of a
-- decoder. CodeBlock/Data/Recover is about the branches that only copy source symbols,
-- CodeBlock/Data/Decode about the one that decodes. CodeBlock/Received has the abstract view, a list
-- of symbols in order of arrival.
--
-- SegmentSet: receiver/segstateset.c and receiver/segstateset.h, the states of a window of four files
-- in a ring. `get`, `mark_initialized`, `mark_readytowrite` and `inc_min_file_nbr` are the functions
-- with the prefix segstateset_. A pointer into the ring is an index, and a write through it is `put`.
-- SegmentSet/Window has the abstract view, a map from file numbers to states.
--
-- Packet: the header of utils/packet_header.h.
--
-- Segment: receiver/segstate.c and receiver/segstate.h, one file that is received and then written.
-- `init`, `add_packet`, `prepare_output`, `write_more`, `ready_for_write` and `free` are the functions
-- with the prefix segstate_. Segment/State and Segment/Packet are about receiving, Segment/Output,
-- Segment/Drain and Segment/Whole about writing.
--
-- Receiver: receiver/receiver.c, the loop `receive_write` with `task_start_write` and `task_write`.
-- One iteration is `iterate`: `choose` finds the next task from the answer of `pselect`, and `perform`
-- does it. The answers of the system calls are the inputs of an iteration. Receiver/Steps,
-- Receiver/Packets, Receiver/Tasks and Receiver/Progress follow the invariant of Receiver/Invariant
-- through the loop; Receiver/Unwritten and Receiver/Order are about the order in which the files are
-- opened and written, and Receiver/Failed about an output that fails. Receiver/Late, Receiver/Stall
-- and Receiver/Waiting are about packets that come late or not at all. Receiver/Main is `main`, with
-- the options, the list of segments and the set-up of the socket; Receiver/Main/Options puts them
-- together with the loop.
--
-- Sender: sender/sender.c, `xmit_file` with `get_file_size`. The packets that it gives to
-- `udp_sendmsg` are its result. `send_sources` and `send_repairs` are the loops over the symbols,
-- `xmit_blocks` the loop over the code blocks. Sender/Packets describes the packets of a file without
-- the loops; Sender/Blocks and Sender/Transmit compare the two, and Sender/Encoded says what the
-- repair packets carry. Sender/Segments is `send_segments`, with the answers of the clock and of
-- `pselect` as inputs; Sender/Segments/Waits is about its waits, and Sender/Segments/Order compares it
-- with the names of the playlist. Sender/Main is `main`, with the options, and Sender/Main/Options and
-- Sender/Main/Sends put it together with what is sent. CommandLine has the options of both programs,
-- as `getopt` gives them.
--
-- Transfer: packets on their way from the sender to the receiver. Transfer/Symbols and
-- Transfer/Deliver follow what the receiver holds through any sequence of packets of one file, and
-- Transfer/RoundTrip puts the sender, the packets that arrive, and the writing of the file together,
-- when all source packets arrive. Transfer/Arrival has the symbols that any packets bring, and
-- Transfer/Decoding puts the same together when the file is decoded from source and repair packets.
--
-- Playlist: utils/m3u8.c. `get_next_ent` and `dummy_get_next_ent` are the functions with the prefix
-- m3u8_. SegmentList: receiver/segment_list.c and receiver/segment_list.h, where `load` is
-- `segment_list_load`. Their children compare them with the lines of the file.
--
-- Cli: sender/cli.c, the commands on the sender's standard input. `get_next_line` and `cli_commands`
-- are the functions of these names. Cli/Buffer has the buffer as the text that it holds; Cli/Found,
-- Cli/Lines and Cli/Commands compare the calls with the lines of the text, and Cli/Overhead is about
-- what the commands keep.
--
-- Udp: sender/udp.c and sender/udp.h. `udp_sendmsg` drops packets and holds the speed down; Udp/Bursts
-- has the bursts that it counts. Clock: utils/timeutil.c. The type `double` is a parameter, with the
-- record `Doubles` of its operations.
--
-- MemBlocks: utils/rq_memblocks.c and utils/rq_memblocks.h. `init`, `include_case` and `free_mem` are
-- `RqMemBlocksInit`, `RqMemBlocksIncludeCase` and `RqMemBlocksFreeMem`, on a heap of numbered blocks
-- with their sizes; to free a block that is not in use is a fault.
--
-- SegmentList/Memory and CodeBlock/Memory have the blocks that `segment_list_load` and
-- `codeblockstate_init` allocate and `segment_list_free` and `codeblockstate_free` release, on the
-- same heap, where a write of an entry behind the array, or into an array that was released, is a
-- fault. Descriptors is utils/fd_ops.c.
--
-- Memory has the allocator of the other parts, a parameter that gives blocks of the size asked for.
-- Base has the numbers, lists, bytes and faults that all parts share: a failed assertion, overflow of
-- a signed integer, a division by zero and an access outside an array end a run with a fault.
--
-- The receiver looks the file of a packet up in the window (SegmentSet), sets up its state (Segment),
-- which derives the code parameters (Params) and its code block (CodeBlock), and adds the packet's
-- symbol to it. When a newer file begins, the older ones are marked, and are written one after the
-- other.
--
-- Bounds and fuel: `probe` gets as many rounds as the table has entries, which is enough since the
-- table never is full: it is larger than the number of symbols that the block can hold.
-- `Segment.Drain.drain`, which stands for a caller that goes on until `segstate_write_more` returns
-- false, gets one round for each byte that is left. `Playlist.next_line`, `SegmentList.read_entries`
-- and the loop of `send_segments` get one round more than the stream of the playlist has bytes, and
-- each round takes a byte. `Cli.cli_commands` gets one round more than the buffer and the input have
-- bytes, and each line takes one, its newline. `Receiver.run` takes one input for each iteration. A
-- `size_t` has 64 bits and an `int` 32.
--
-- Not modelled: of the sender, the address of the socket, the seed of the random numbers, which are
-- inputs, the allocation of the memory of the codec, and an overflow of the number of the file; the
-- test program, the graphical front end and the scripts. Of the receiver: the failure of `malloc`, the
-- release of the memory of a file, which is the loss of its lists, closing of descriptors, printing,
-- and the values of timeouts.
--
-- Tests and its children, with the code of Tests/Repetition in place of the library, and
-- Receiver/Tests, apply the results to concrete inputs.
pub mod Base
pub mod CommandLine
pub mod Descriptors
pub mod Memory
pub mod Packet
pub mod Params
pub mod HashTable
pub mod CodeBlock
pub mod SegmentSet
pub mod Segment
pub mod Receiver
pub mod Playlist
pub mod SegmentList
pub mod MemBlocks
pub mod Clock
pub mod Udp
pub mod Cli
pub mod Sender
pub mod Transfer
pub mod Tests
