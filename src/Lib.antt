-- ===== src/Lib.antt =====
-- System/161, the hardware simulator: a model of its clock, its bus, three of its devices, its
-- MIPS cpu, and its gdb server.
--
-- The program simulates a machine whose cpus run in slices. The clock (sys161/main/clock.c) keeps
-- virtual time and a queue of timed events; the main loop asks it how long the cpus may run, and
-- tells it how long they did. The cpus reach the devices through the bus (sys161/bus/lamebus.c),
-- whose controller collects the devices' interrupts and drives two lines of each cpu. The devices
-- schedule events on the clock and raise interrupts on the bus. A debugger that is connected stops
-- the machine, and reads and writes its memory by packets.
--
-- Which file models what:
--   Base            shared helpers: tests, lists, machine words, bits, and how a call ends
--   Clock/State     the variables of clock.c, with the globals of main.c and the cpu that it uses
--   Clock/Schedule  acalloc, acfree, schedule_event, clock_getrunticks
--   Clock/Dispatch  check_queue, clock_ticks, clock_waitirq, clock_init
--   Clock/Time      clock_vahead, clock_time, clock_setsecs, clock_setnsecs
--   Bus/State       struct lamebus_cpu and the bus; what the controller calls, as a record
--   Bus/Init        lamebus_commonmainboard_init
--   Bus/Irq         irqupdate, raise_irq, lower_irq, check_irq
--   Bus/Cpue        get_cpue, set_cpue
--   Bus/Registers   the registers of the controller, and the scratch memory of the cpus
--   Bus/Slots       bus_io_fetch, bus_io_store
--   Devices/Port    what a device calls, as a record of operations and a record of laws
--   Devices/Timer   sys161/bus/dev_timer.c
--   Devices/Serial  sys161/bus/dev_serial.c
--   Devices/Disk    sys161/bus/dev_disk.c:
--     File, Geometry, Timing      the transfers, the sectors on the tracks, the delays
--     Work, Registers, Init       disk_work, the registers, disk_init
--   Mips            the MIPS cpu, sys161/mipseb/mips.c and sys161/mipseb/mipscore.h:
--     State, Tlb, Exception, Memory   struct mipscpu, the tlb, exceptions, domem
--     Registers       the registers of the system coprocessor, domf and domt
--     Fields, Alu, Branch, LoadStore, System   the instructions, mx_add to mx_copz
--     Pages           mapmem, precompute_pc and precompute_nextpc, and what looks up the pages of
--                     the pc again: do_rfe, writetlb, phony_exception
--     Execute, Cycle  the decoding, and the cycle of a cpu, from cpu_cycle
--     Control         mips_init, and the functions by which bus and boot loader reach a cpu
--     Isolation       what a program in user mode can do
--   Gdb             the gdb server, sys161/gdb:
--     Frames          the loop of gdb_receive in gdb_fe.c
--     Text, Memory, Commands   gdb_be.c: the text of packets, memory, debug_exec
--   Machine         clock and bus in one state, filling the records that bus and devices take
--   Tests           the theorems at concrete states
-- The modules below one of these hold what is proved about it.
--
-- State is passed explicitly; an operation of C that returns nothing becomes a function from state
-- to state. A call that can abort the simulator, read outside an object or run for ever gives an
-- Outcome (Base/Faults). Integers are natural numbers with the wrap-around of their width written
-- out (u32, u64, sub32, sub64). The linked list of events and the free list are lists; an entry of
-- action_storage is known by its index. The pair of a handler and its data is one value, of any
-- type in the clock and an Event in the machine.
--
-- Fuel: check_queue and clock_waitirq loop until nothing is due and until a cpu runs. Both take
-- fuel. For check_queue it is enough to have more than the number of events due, for handlers that
-- leave no more events due than they find (Clock/Dispatch/Total); clock_waitirq waits for outside
-- events, and has no bound. For the transfers of the disk it is enough to have more than a sector has
-- bytes and the host still interrupts, since each round transfers a byte or uses up an interruption;
-- for the rotation, a round for each nanosecond, and five for the seconds; for the packets, the bytes
-- in the buffer and one more.
--
-- Parameters: the random jitter of schedule_event, the host's clock, select, the entry points of
-- the cpus, the console and the statistics; the image file of the disk and its floating-point
-- computations; strtoul and the connection of the gdb server. What is relied on of them is a record
-- of laws (Bus/State, Devices/Port, Devices/Disk/File/Laws, Devices/Disk/Geometry/Places,
-- Machine/Laws) or a named hypothesis; Machine/Laws and Machine/Disks fill those of bus and devices
-- with the clock and the bus.
--
-- An instruction of the MIPS cpu is a function of its word and of the cpu with the rest of the
-- machine; signed values are integers (Base/Ints). Of the pages that instructions are fetched from
-- the model knows whether there is one, and the word at the pc is a parameter (Mips/Pages); what
-- the bus changes in a cpu while it executes, its interrupt lines, is seen in its next cycle. The
-- pages of a handler are there: exception looks them up too, and the source says that it cannot fail.
--
-- Not modelled: printing, the statistics, the configuration file, the other devices, the loops over
-- the cpus and the cycles of a slice, the caching of the pages of the pc, the RISC-V cpu, the sockets
-- of the gdb server, the profiler, the network hub and the tools.
pub mod Base
pub mod Clock
pub mod Bus
pub mod Devices
pub mod Mips
pub mod Machine
pub mod Tests
pub mod Gdb
