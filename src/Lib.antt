-- ===== src/Lib.antt =====
-- impd4e is a network probe. It captures packets, selects bytes of each, hashes them, and exports a
-- record for each packet whose hash lies in a configured range; probes with the same configuration
-- select the same packets. This library models the path of a packet from the capture callback to
-- the record, the options and commands that configure it, and the reports of the probe about itself.
--
-- The parts, in the order in which a packet meets them:
--   Settings      src/settings.c: the options of the command line, applied one by one to the options
--                 and to the array of devices. Sampling is the hash range (-m, -M, -r), Names the
--                 look-up of templates, hash functions and selections, Invariant what always holds,
--                 File what is read from a line of the configuration file, Sections the
--                 whole file, Table the options by letter and by name, and Others the
--                 options that the packet path does not read.
--   Startup       src/main.c, and what it calls: Arguments (with Valid) is parse_cmdline_v2 of
--                 src/settings.c over the whole table of options, Files reads configuration files
--                 that read others, First is the old parse_cmdline; Open and Pcap open
--                 the interfaces (src/pcap_handler.c, src/socket_handler.c, src/helper.c), Ready is
--                 about them; Main sets up libipfix (src/ipfix_handler.c) and runs the events; Pfring is
--                 open_pfring of the build option PFRING; Life
--                 follows the program from its start to its end.
--   Filter        src/settings.c and src/helper.c under the build option PFRING, with the tables of
--                 include/pfring_filter.h and src/pfring_filter.c: the option -a (Words, Once, the
--                 names of Protocols in Numbers), and the installation of its rules (Install).
--   Device        include/constants.h and include/settings.h: device_dev_t and options_t, the fields
--                 that the packet path reads, and their defaults.
--   Packet        src/packet_handler.c: the readers of a packet (get_*), Decode the decode_*
--                 functions, Fields the records, Handler handle_packet and handle_ip_packet, with
--                 determineLinkType of src/pcap_handler.c. Handler/Counters runs a whole capture,
--                 Handler/Record is a specification of one packet by itself, and Handler/Readable,
--                 Located, Returns and Live are about the packets that lead to no fault.
--   Headers       src/hash.c: findHeaders.
--   Selection     src/hash.c: append_packet (in Memory) and the copyFields_* functions.
--   Range         src/hash.c: parseRange, the language of the selected ranges.
--   Hash          src/hash.c (calcHashValue_*), src/bobhash.c, src/twmx.c and src/hsieh.c.
--   Address       src/helper.c: IPv4 addresses as text.
--   Sockets       src/socket_handler.c: the dispatch functions, with packet_watcher_cb; Capture and
--                 Dispatch relate them to runs of the packet handler. Print is the logging of an address.
--   Export        src/export_handler.c: the records about the probe, and the timers. Fits is about the
--                 lengths of records, Reports about the packet counts.
--   Netcon        src/netcon.c: the connections of the collector (Unique, Reachable) and its
--                 messages (Messages).
--   Config        src/config_handler.c: the commands of the run-time configuration (Commands) and
--                 the callbacks that run them; Keeps, Lengths, Answers and Replies are about them.
--   Probe         the callbacks together, on one state, as the event loop calls them.
--   Stats         src/stats.c: get_probe_stats, on what it reads.
--   Templates     include/ipfix_templates.h and src/ipfix_handler.c: the fields of the records.
--   Logger        src/logger.c: the filters of the log; Filter what they match.
--   Memory        packet_t, buffer_t and the arrays of offsets and layers.
--   Common        lists, words, bits and results that the parts share.
--   Tests         concrete packets, buffers and command lines.
--
-- Memory is a list of bytes from a pointer to the end of what was captured. A read beyond it, and a
-- write beyond a buffer's size, end in a fault (Common/Results). Unsigned numbers are natural numbers with their wrap-around written
-- out; an int offset or range is a natural number where the code keeps it from being negative. What
-- handlers send is returned as a list of effects, in order.
--
-- Four loops run on fuel. That of findHeaders over IPv6 options gets a round for each byte of the
-- packet and one more, which are enough since each round reads further on in the packet; that of
-- strtok_r over an option -a gets a round for each character and one more, since each token takes one.
-- That of setPFRingFilter over the rules has an index of eight bits: 256 rounds are enough for up to
-- 255 rules, and no number is for 256. The option -c reads a file that may name itself: its
-- fuel is a parameter, and how deep the files are nested. All other loops are structural recursion.
--
-- What the compiler and the allocator choose (the sign of char, the alignment of a buffer) is a
-- parameter of the hash functions; so are the results of strtoll, atoi and atof in the options and
-- commands, what recv delivers, whether libipfix takes a record, and the time.
--
-- What the operating system, libpcap, libipfix and PF_RING answer to the calls that open interfaces and set up
-- the export is a record of functions (System, Ipfix, Pfring), which the definitions take.
--
-- Not modelled: what libpcap, libipfix, PF_RING and libev do; the packet id, which the code computes and does
-- not use; pfring_dispatch and packet_pfring_cb, whose code uses fields that the structures no longer have; the
-- output of the log and of the help; the reading of the statistics from the operating system; signals.
pub mod Common
pub mod Memory
pub mod Hash
pub mod Headers
pub mod Selection
pub mod Range
pub mod Address
pub mod Templates
pub mod Device
pub mod Packet
pub mod Settings
pub mod Netcon
pub mod Export
pub mod Sockets
pub mod Config
pub mod Probe
pub mod Stats
pub mod Logger
pub mod Filter
pub mod Startup
pub mod Tests
