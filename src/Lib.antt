-- ===== src/Lib.antt =====
-- The container library of src/lxc: its device rules for cgroup v2, the id maps of user namespaces,
-- the order in which the two processes of a start go on, the ring buffer and the log of the console, the
-- states of a container and those who wait for them, the configuration with its keys and network devices,
-- the messages to netlink, the options of mounts, the data base of lxc-user-nic, the event loop, and the
-- strings that all of these read and write.
--
-- The parts and their files. Paths of the code are from the root of the repository.
-- - Base.antt passes on the names of the libraries. Base/Tests.antt has Boolean tests on numbers,
--   Base/Lists.antt lists over them, Base/Int.antt the int fields of the program, and Base/Results.antt
--   the functions that return a negative errno (`err e` is -e).
-- - Text: src/lxc/string_utils.c and .h. Text/Compare.antt has strequal, is_empty_string and abspath,
--   Text/Number.antt the lxc_safe_* parsers over strtoul, strtol and strtoll, Text/Decimal.antt the formats %u
--   and %lu, Text/Split.antt splitting and joining over strtok_r, Text/Path.antt lxc_path_simplify and
--   the functions that append to a path, Text/Trim.antt white space and parse_byte_size_string. A C
--   string is the list of its bytes.
-- - Devices: src/lxc/cgroups/cgroup2_devices.c. Devices/Rules.antt has the list of rules and
--   bpf_list_add_device, Devices/Bpf.antt the program that __bpf_cgroup_devices builds,
--   Devices/Machine.antt what a request is, what a rule covers, and the documented effect of the
--   instructions, as the interface Machine that the theorems take as an argument. Devices/Attach.antt
--   loads, attaches, detaches and exchanges the program, over the record Bpf of the system calls;
--   Devices/Attach/Update.antt says what these document.
-- - Sync: src/lxc/sync.c, with the calls that lxc_spawn and do_start of src/lxc/start.c and lxc_setup
--   of src/lxc/conf.c make of it. spawn_ops and start_ops are the two sequences of tasks, numbers that
--   are sent and numbers that are waited for, and a step relation lets either process go on, fail, or
--   be killed.
-- - Idmap: Idmap/Parse.antt is parse_idmaps of src/lxc/confile_utils.c, Idmap/Config.antt has
--   set_config_idmaps and get_config_idmaps of src/lxc/confile.c and get_mapped_rootid of
--   src/lxc/conf.c, Idmap/Lookup.antt the look-ups of src/lxc/idmap_utils.c, Idmap/Minimal.antt the
--   maps that get_minimal_idmap and userns_exec_full of src/lxc/conf.c put together from them, and
--   Idmap/Write.antt lxc_map_ids and write_id_mapping of src/lxc/idmap_utils.c as the sequence of what
--   is written and run. The parser uses lxc_safe_ulong of Text, and the look-ups read the list that
--   the configuration fills.
-- - RingBuf: src/lxc/ringbuf.c and .h, with offsets modulo 2^64 and a file that is mapped twice.
-- - Terminal: the log of src/lxc/terminal.c; a terminal writes what it reads to the ring buffer and to
--   this log.
-- - Netlink: src/lxc/nl.c, and ifa_get_local_ip of src/lxc/network.c, on the bytes of a message.
-- - Timestamp: lxc_unix_epoch_to_utc of src/lxc/log.c.
-- - Cpuset: the masks of cpus of src/lxc/cgroups/cgfsng.c, and the list that cpuset1_cpus_initialize
--   gives a child; it reads numbers and joins strings with Text.
-- - State: src/lxc/state.c, lxc_add_state_client of src/lxc/commands_utils.c and
--   lxc_serve_state_clients of src/lxc/start.c.
-- - Config: Config/Network.antt has the network devices of src/lxc/confile_utils.c. Config/Keys.antt is the
--   look-up of keys in the two tables of src/lxc/confile.c, which Config/Keys/Table.antt has;
--   Config/Unexpanded.antt the text of the configuration as it was written, and Config/Line.antt
--   parse_line, of the same file; Config/Item.antt is what src/lxc/lxccontainer.c does with keys and text
--   where an item is set or cleared, and Config/Subkeys.antt what src/lxc/confile.c does for the keys of a
--   network device, with the list of devices.
-- - Mount: the options of mounts of src/lxc/conf.c. Mount/Table.antt has the two tables, with a set of
--   flags as the list of the numbers of its bits, Mount/Legacy.antt parse_mntopts_legacy, and
--   Mount/Attrs.antt parse_mount_attrs. Both split with tokens of Text/Split.antt.
-- - UserNic: src/lxc/cmd/lxc_user_nic.c. UserNic.antt has the data base of network devices as the bytes
--   of its file: find_line, count_entries, cull_entries and get_nic_if_avail; UserNic/Usernet.antt reads
--   the allotments (get_alloted).
-- - Mainloop: src/lxc/mainloop.c over epoll. The callbacks of a client may add and delete handlers and
--   close descriptors, its cleanups may delete handlers and close descriptors, and a read through a
--   handler that was freed, or freeing it again, is a result of its own.
--
-- Bounds. unsigned long and uint64_t are written out modulo 2^64, unsigned int
-- and the ints of get_alloted modulo 2^32. Loops over
-- lists and strings are structural. find_unmapped_nsid starts its loop again whenever an entry maps the
-- candidate; it is given one pass more than there are entries, since every pass leaves one entry behind
-- for good where the entries end below 2^31. lxc_wait is given as many attempts as its timeout has
-- seconds, and the loop over the attributes of a message one round more than it has bytes. Messages have
-- less than 2^16 bytes, as rta_len has; the file of a log and its limit less than 2^63. The loops over the
-- lines of a file are given as many rounds as it has bytes. lxc_mainloop has no last round: its function
-- runs a given number of them, and the theorems are about every number. The loop over the lines of the
-- configuration is given as many rounds as the text has bytes, and the one that allocates as many as are
-- needed.
--
-- What stands outside: memory allocation is taken to succeed, and logging is left out. The answers of
-- the kernel and of other processes are arguments: whether a mapping succeeds (lxc_ringbuf_create),
-- the answers of the command socket (lxc_wait), the effective ids, the tools newuidmap and newgidmap
-- and the results of writes (the record System of Idmap/Write.antt), the file and the writes of a log
-- (the record Kernel of Terminal.antt), and bpf(2) (the record Bpf of Devices/Attach.antt). In Sync
-- the parent is not killed, and what is exchanged over the other socket of a start is part of a task:
-- that a task may wait there, and for ever where the other process has died, is not modelled. In UserNic the existence of a device, the name of a new one and the
-- groups of a user are arguments, and the file is written without an error. In Mainloop the record
-- System has the answers of epoll and the addresses that zalloc returns, a descriptor that is closed
-- leaves the epoll instance, and an address that was freed is told from one that was given out again
-- only where it is not in use. In Config the random digits of a hardware address,
-- lxc_config_net_is_hwaddr and the callbacks of keys are arguments. In Cpuset the
-- ranges of the theorem are below the 256 bits that the array begins with. Not modelled are the other
-- control groups, the mounts themselves, storage, network interfaces, security modules, the tasks of
-- a start, the command socket and the tools, which are mostly system calls, and the callbacks of
-- configuration keys other than lxc.idmap.
pub mod Base
pub mod Text
pub mod Devices
pub mod RingBuf
pub mod Idmap
pub mod State
pub mod Config
pub mod Sync
pub mod Terminal
pub mod Netlink
pub mod Timestamp
pub mod Cpuset
pub mod Mount
pub mod UserNic
pub mod Mainloop
