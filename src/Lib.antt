-- ===== src/Lib.antt =====
-- A model of mdio-tools: the kernel module mdio-netlink, which runs small programs of MDIO bus
-- accesses, the command mdio, which builds such programs, and the command mvls, which reads the
-- tables of Marvell LinkStreet switches.
--
-- The parts and how they interact. A command of mdio parses its arguments and has a driver append
-- the instructions of a register access to a program (Tool). The program is sent to the kernel,
-- which validates it and runs it on the bus, and emits words into reply messages (Kernel). The
-- words go to the command's callback. mvls finds switches by devlink, reads their tables from devlink
-- regions, parses the entries and prints them as text or as JSON (Switch).
--
-- Isa                 include/linux/mdio-netlink.h, src/mdio/mdio.h: instructions, REG, IMM, GOTO,
--                     INSN and mdio_prog_push. A program is a list of instructions.
-- Kernel/Machine      kernel/mdio-netlink.c: mdio_nl_eval. `Machine` has the registers, the program
--                     counter, the number of looks at the clock, the bus and the writer; `advance` is
--                     one pass of the loop, `eval` the loop. `Host` is what the kernel provides.
-- Kernel/Validate     mdio_nl_op_protos, mdio_nl_validate_insn, mdio_nl_validate_prog.
-- Kernel/Safety       what the validation rules out; Kernel/Termination: the loop's end.
-- Kernel/Runs         what each instruction does, for use on the code of the drivers.
-- Kernel/Message      mdio_nl_open, mdio_nl_close, mdio_nl_flush, mdio_nl_emit on a buffer that is
--                     live, NULL, or gone; Message/Stream, Message/Close and Message/Ownership
--                     are about them.
-- Kernel/Command      mdio_nl_cmd_xfer; `System` has the references to the bus device, the bus, netlink
--                     and the messages sent, and the outcome `fault` is a use of a buffer that is not
--                     there; Command/Returns is about it.
-- Tool/Args, Device   src/mdio/mdio.h: argv_peek, argv_pop, struct mdio_device, struct mdio_driver.
-- Tool/Parse, Common  src/mdio/mdio.c: the parsers, and the commands raw, bench and dump. A command
--                     is a `Script`: the requests that it sends and its exit status.
-- Tool/Phy, Paged, Xrs, LinkStreet, Bus
--                     src/mdio/phy.c, paged-phy.c, xrs.c, mvls.c, bus.c and the end of main.c.
-- Tool/Parse/Bounds   about the parsers of ranges and values.
-- Tool/Transport      src/mdio/mdio.c: mdio_xfer_timeout, msg_recv, mdio_xfer_cb, mdio_parse_bus, mdio_init
--                     and mdio_modprobe over a socket that is a parameter; Transport/Replies is about them.
-- Tool/Access         the contract between a driver and the commands (`Reads` and `Writes`), the drivers
--                     that keep it, and what raw, bench and dump do for every driver that does.
-- Tool/Access/Polling the wait loops of src/mdio/mvls.c; MultiChip: accesses by multi-chip addressing.
-- Tool/Typed          the programs of the drivers and commands against the kernel's validation.
-- Tool/Main           src/mdio/main.c: main from its options on, and bus_list of src/mdio/bus.c; what getopt,
--                     glob and modprobe do is a parameter.
-- Tool/Printing       what the callbacks of raw, bench and dump (src/mdio/mdio.c), and of lag and counter
--                     (src/mdio/mvls.c) print; Printing/Differences is about the counters.
-- Tool/Status         src/mdio/print-phy.c: the printers of registers, as the calls of output functions
--                     that they make; Status/Phy, Pma, Pcs and Types have the registers, and
--                     Status/Devices what phy_status_cb, mmd_status_cb, mva_status_cb and
--                     bus_status_cb print. Status/Reading is a reader of that output; Lines, Readable
--                     and Outputs are about it. Status/Registers has the flags of an MMD's registers, by
--                     name, and Registers/Printed is about them.
-- Transfer            src/mdio/mdio.c with kernel/mdio-netlink.c: a request through the kernel's handler
--                     and back. `Linked` is what netlink does in between. Transfer/Delivery, Words and
--                     Raw are about it, with Kernel/Message/Marks and Kernel/Validate/Accepted.
-- Switch/Tables       src/mvls/mvls.c: the parsers of VTU, STU and ATU entries; Switch/Fields is about
--                     them.
-- Switch/Env          src/mvls/mvls.c: the devices, their look-up and order; Switch/Order is about it.
-- Switch/Region       src/mvls/devlink.c: devlink_region_dup_cb, which assembles a region from chunks;
--                     Region/Assembly and Region/Walk are about it.
-- Switch/Devlink      src/mvls/devlink.c: queries and the requests for a region, over a socket that is a
--                     parameter; Devlink/Snapshot is about them. Devlink/Open has devlink_open.
-- Switch/Discovery    src/mvls/mvls.c: env_init and its callbacks; Discovery/Valid and Discovery/Start
--                     are about them.
-- Switch/Entries      the chips' families, a region as an array of entries, port_load_regs, dev_load_pvt.
-- Switch/Main         src/mvls/mvls.h and mvls.c: struct printer, and main with its options.
-- Switch/Json         src/mvls/mvls-json.c: the JSON printer as functions to text; Json/Ports has the
--                     ports. Json/Grammar is the grammar of JSON, Json/Lexemes, Rows, Entries,
--                     PortValues, PortList, Output and Marks are about the printer.
-- Switch/Show         src/mvls/mvls-show.c: the printer for terminals as functions to text; Show/Matrix has
--                     the port VLAN tables, Show/Printing the printer, Show/Mirror is about the matrix.
-- Prelude             names of the library, Boolean tests, lists over the native numbers, words.
-- Tests               a bus and a netlink for concrete runs, and the theorems at concrete inputs.
--
-- Numbers are natural numbers with the wrap-around of the source's types written out: registers and
-- bus values have 16 bits, the program counter 32. An error -n is the number n. `time_after` tells at
-- which look at the clock the time is up. The interpreter's fuel is the number of passes; a bound on
-- the looks at the clock bounds it. The fuel of `dump` is more than a uint32_t has values, so that
-- running out of it means a loop without an end. The MDIO bus, netlink, the bit fields of a PHY id and
-- the C library's number and token functions are parameters.
--
-- A region is a list of bytes of which some may never have been written; a query of a region takes as
-- much fuel as datagrams may come, and one more.
--
-- Not modelled: libmnl and the layout of its requests; the usage and version texts and those
-- of errors; memory that runs out in the tools, but in devlink_open; the kernel's compatibility layer,
-- which is chosen by version macros; and copies of other projects' headers.
pub mod Prelude
pub mod Isa
pub mod Kernel
pub mod Tool
pub mod Transfer
pub mod Switch
pub mod Tests
