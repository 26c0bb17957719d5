-- ===== src/Lib.antt =====
-- The ROCE prototype: programs that send and receive InfiniBand datagrams (RDMA over converged
-- ethernet) and UDP packets, over the verbs library, over raw sockets and from an FPGA.
--
-- The parts of the program and the files that model them. Paths are from the repository's root.
--
--   Crc               crc32.h: the table-driven CRC-32. `crc32` is the C function with its
--                     loop bound cast to `int`; a read outside the object, which C leaves
--                     undefined, is `none`. Crc/Reference is the bit-at-a-time definition.
--   Packet            constants.h, raw_packet.h, raw_packet.c: the structs of a packet as records
--                     of bit fields, the bytes that a little-endian compiler gives them
--                     (`grh_bytes`, `bth_bytes`, `deth_bytes`, `packet_bytes`), and the lines that
--                     the print functions write (Packet/Print). Packet/Layout has their sizes.
--   LookupAddr        lookup_addr.h, lookup_addr.c: `struct addr`, `lookup_local_addr`,
--                     `lookup_remote_addr`, `addr_from_strings` and `print_addr`, with the resolver,
--                     the ARP table, the interface list and the conversions of text as parameters.
--   RawIbverbs        raw_ibverbs.c: the checksums `ib_header_checksum` and `ib_checksum`, and
--                     `init_invariant_headers`; the static `full_packet` is a value that the
--                     functions pass on. RawIbverbs/Send is `ib_host_send_loop` and the end of
--                     `main` in host mode, with the socket as a parameter.
--                     RawIbverbs/Program is all of `main`.
--   Text              `snprintf` with the format "Message: %d", and `strcmp`.
--   Signals           `packet_loop` and `stop_loop`, which each of the five programs has under its own
--                     names, and how often a loop on the flag runs for a schedule of SIGINT.
--   Rdma              rdma.h, rdma.c: the work requests (Rdma/Request), the arrays that the
--                     initialisers build and chain into a ring (Rdma/Buffers), and `post_sends`
--                     and `post_recvs` (Rdma/Post), which are one text over two request types.
--                     Rdma/Device is the interface of the verbs library: a record of its
--                     two calls and of the requests in flight, and the documented order of a work
--                     queue (`IsFifo`), which no definition uses and the theorems assume.
--                     Rdma/Polling says what one poll of a full ring gives back.
--   Rdma/Setup        rdma.c: `rdma_init`, `allocate_buf`, `rdma_init_server`, `rdma_init_client`,
--                     `rdma_cleanup` and `internal_rdma_cleanup`, with the answers of the libraries
--                     as a parameter (`Env`) and every acquisition and release in a trace.
--                     Rdma/Setup/Held says what a trace leaves held, and when it is proper. The
--                     attributes of the calls (Rdma/Setup/Attributes) are kept in a list, and
--                     Rdma/Setup/QueuePair has the documented states of a queue pair.
--   RdmaServer        rdma_server.c: the loop of `main`; RdmaServer/Program from `rdma_init_server` to the
--                     return, and RdmaServer/Command all of `main`. RdmaServer/Rounds has one round of the
--                     loop, RdmaServer/Refine the counter that it implements, and RdmaServer/Live its
--                     progress, on the devices of Rdma/Lively.
--   RdmaClient        rdma_client.c: the loop of `main`, with the contents of the data buffer;
--                     RdmaClient/Live is about its progress, RdmaClient/Program goes from
--                     `rdma_init_client` to the return, and RdmaClient/Command is all of `main`.
--   RawUdp            raw_udp.c: `ipv4check`, and `main` from `if_nametoindex` on. RawUdp/Check has the
--                     ones' complement sum, RawUdp/Bag the words without their order (a quotient of
--                     the library's `Perm`), RawUdp/Frame the frame of the specifications, and
--                     RawUdp/Program all of `main`.
--   Udp               udp.c: `server_loop`, `client_loop`, and `main`.
--   Kernel            ibverbs.cl: the FPGA's kernel `write_ibverb_packet`, as a function to the lines that
--                     it writes to the channel. Kernel/Framing says how the lines are marked.
--   OpenCl            opencl_utils.hpp, opencl_utils.cc: `errorMessage` (OpenCl/Messages), `createContext`,
--                     `createProgramFromBinaries` and `get_program` (OpenCl/Context), and the class
--                     `Kernel` with `set_args` (OpenCl/Wrapper; OpenCl/Args describes
--                     the ends of a call). An exception is a result (`Answer`,
--                     `Outcome`), and what is printed is part of the state. What the environment and the
--                     OpenCL library answer is a record (`Runtime`). OpenCl/Queues has the in-order
--                     queues of the OpenCL standard, whose turns are a parameter.
--   FpgaHost          fpga_host.cc: `ib_fpga_send_loop`. FpgaHost/Launch, Run and Frames follow the calls
--                     that succeed, FpgaHost/Phases, Rules, Ending and Safety all of them, and
--                     FpgaHost/EndToEnd joins the command line, the loop and the kernel.
--
-- How the parts interact: raw_ibverbs.c fills the structs of raw_packet.h with the addresses that
-- lookup_addr.c finds, computes the checksum with crc32.h, and appends it behind each packet that it
-- sends; on the FPGA's way it hands the headers and their checksum to fpga_host.cc, which passes them by
-- OpenCL to the kernel of ibverbs.cl, which continues the checksum. raw_udp.c uses the same lookups. rdma_server.c and rdma_client.c let rdma.c build the rings
-- and then post, poll and post again.
--
-- Conventions. Numbers are natural numbers, and a machine word is reduced where the source
-- would wrap round. A pointer into an array is an index, a pointer into a buffer an offset, and NULL
-- is `none`; an access outside an object is a result of its own (`none`, `outside`, `undefined`,
-- `fault`). A loop on a flag that a signal handler clears is a recursion on the number of times
-- that the test finds the flag set, or on the list of what the calls answer in these rounds. Each
-- `main` takes this number from a list that says for each test whether SIGINT has come (Signals).
-- Fuel: `decimal` has the ten digits of an `int`; `walk` follows a chain of requests for as many
-- steps as the array has entries, since no chain without a repetition is longer; `write_lines` has
-- more than one round for each byte of the packet, of which every round writes up to 32.
--
-- Not modelled: what the programs print of addresses and of errors, but for the OpenCL wrappers and the
-- lines of the servers; the sizes given to `malloc`; the information that an OpenCL platform may refuse to
-- give; sys/verbs.h, a header of libibverbs, but for the structs and masks that the programs fill.
pub mod Prelude
pub mod Crc
pub mod Packet
pub mod LookupAddr
pub mod Text
pub mod Signals
pub mod RawIbverbs
pub mod Rdma
pub mod RdmaServer
pub mod RdmaClient
pub mod RawUdp
pub mod Udp
pub mod Kernel
pub mod OpenCl
pub mod FpgaHost
