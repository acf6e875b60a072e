-- ===== src/Lib.antt =====
-- The core of the cgos kernel: its memory managers, its scheduler, its keyboard driver, its file
-- system and its network protocols, as functions on explicit states, with the theorems that make
-- them correct.
--
-- Parts and files (paths from the repository's root):
--   Memory.Bitmap  src/memory/bitmap_mem.c, bitmap_mem.h: the allocator of 4096-byte blocks. Its state
--                  is `Manager`; each function of the C code has a function of its name.
--   Memory.Pmm     src/memory/pmm.c: the physical pages over one bitmap manager. Its state is `Pmm`.
--   Memory.Bytes   the byte routines of src/memory/memory.c.
--   Memory.Heap    its heap: malloc, free, calloc, realloc. Its state is `Heap`.
--   Sched.Thread, Sched.State   src/sched/thread.h and the statics of scheduler.c: `Thread`, `Sched`.
--   Sched.Ready    the ready queues of src/sched/scheduler.c (enqueue_ready, dequeue_ready,
--                  remove_from_ready, pick_next_thread).
--   Sched.Sleep    its sleep queue (enqueue_sleep, wake_expired_sleepers).
--   Sched.Adapt    its adaptive priorities (update_cpu_usage, adjust_priority).
--   Sched.Calls    its calls (schedule, scheduler_add, scheduler_tick, scheduler_yield, ...).
--   Keyboard       src/drivers/keyboard.c: the ring of keys and the interrupt handler. Its state is
--                  `Keyboard`; Keyboard.Ring relates it to a bounded queue.
--   Net.Route      the interface table and routes of src/network/network.c, and ip_is_local.
--   Net.Address    addresses as text, src/network/ip.c.
--   Net.Checksum   the checksums of src/network/ip.c, udp.c and tcp.c.
--   Net.Arp        src/network/arp.c: the table (`ArpTable`) and the packets.
--   Net.Udp        src/network/udp.c: the sockets (`Udp`) and the delivery of datagrams.
--   Net.Tcp        src/network/tcp.c: the state machine of a connection; Net.Tcp.Table has the
--                  operations on the connection table (`Tcp`).
--   Net.Ip         the packets of src/network/ip.c: ip_send_packet, ip_process_packet and the test of the
--                  checksum. `IpHeader` has its fields as they lie in memory.
--   Net.Icmp       src/network/icmp.c: echo requests, replies, `Ping`; Net.Icmp.Statistics has icmp_ping.
--   Net.Ethernet   src/network/ethernet.c, with network_send_raw and network_receive_raw of network.c.
--   Net.Socket     src/network/socket.c: descriptors (`Sockets`) over Net.Udp and Net.Tcp;
--                  Net.Socket.Calls has the calls on a descriptor.
--   Net.Dhcp       src/network/dhcp.c: the client (`Client`) and its messages; Net.Dhcp.Receive has
--                  the options, the received packets and the lease.
--   Memory.Paging  src/memory/vmm.c: the four levels of page tables, a store of entries in `Vmm`.
--   Fat.Disk       the state of src/fs/fat16.c (`Fat`), and the sectors of src/drivers/ata.c.
--   Fat.Table      its allocation table: reading, writing, searching and freeing entries.
--   Fat.Name       file names and their eleven bytes in an entry.
--   Fat.Directory  the root directory: finding, listing and creating files.
--   Fat.File       reading, writing and deleting files.
--   Fat.Volume     mounting and formatting.
--   Base           numbers, tests, lists and bits that the parts share.
--
-- How the parts interact: the heap takes its pages from Memory.Pmm, whose page calls go to one
-- manager of Memory.Bitmap, and the page tables take theirs from it too; the calls of
-- Sched.Calls use the queues and the priorities; UDP and TCP look their interface up in
-- Net.Route, and hand their packets to the IP layer (Net.Ip), which looks hardware addresses up
-- in Net.Arp and hands its packets to Net.Ethernet; ICMP and the DHCP client send through the
-- same layers; the descriptors of Net.Socket stand for the sockets of UDP and the connections of
-- TCP. The parts of Fat are commands on one state, which ends with a result, with an error, with
-- a division by zero, or without fuel.
--
-- Conventions: a uint32_t or uint64_t keeps its wrap-around, written out (`% 2 ^ 32`). A pointer
-- to a thread, a socket or a connection is its number, and a null pointer that the code stores
-- or returns is none; the pointers that a caller hands in are not null. The scheduler's calls
-- run with interrupts off, so each is one step; `now` is the timer's count. The packets of ARP,
-- UDP and TCP hold their fields in host order, since each field is swapped both when it is sent
-- and when it is received; those of IP, ICMP and DHCP are bytes in network order. Calls of
-- callbacks are returned as values; what a callback does is not modelled.
-- A drive is addressed by the whole number of a sector, of which the driver sends 28 bits: drives
-- have fewer than 2 ^ 28 sectors, as IDENTIFY counts them. The search for a free cluster counts
-- in 16 bits in the code, and does not end there on a table of more than 65533 clusters.
--
-- Bounds and fuel: a manager has BITMAP_MAX_BLOCKS blocks at most. The two loops over the sleep
-- queue run on fuel MAX_THREADS, and the system has at most that many threads. The loop that
-- adds the carry of a checksum runs for at most three rounds: a sum of 32 bits folds to at most
-- 131070, and that to at most 65535. The loops over a cluster chain run on fuel 0x10002, more
-- than a table of 16-bit numbers has entries. The loop over the options of DHCP has one round
-- for each byte at most. All other loops are recursions on a list or on the count of the rounds
-- to go.
--
-- Not modelled: logging and printing; the assembly context switch and the stacks of new threads;
-- the switch of the page table register; the start of the network and its polling loop, the
-- loopback queue; the shell; the drivers of the PCI bus, the network card, the timer and the
-- screen. They are input and output, assembly, or parts that the modelled ones do not depend on.
pub mod Base
pub mod Memory
pub mod Sched
pub mod Keyboard
pub mod Net
pub mod Fat
