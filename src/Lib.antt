-- ===== src/Lib.antt =====
-- NANO S32: a 32-bit operating system in C. This library models its file system, the disk
-- transfers below it, the heap of the kernel, the string functions that they use, the part of the
-- network module above the card, and two programs, the assembler and the editor.
--
-- The program's parts. The programs and the command line call the user library (source/ulib), whose
-- system calls reach the kernel (source/kernel.c); the kernel passes them on to the file system
-- (source/fs.c), the heap, the network and the sound modules. The file system reads and writes
-- blocks by io_disk_read and io_disk_write of source/hwio.c, which move sectors by the BIOS or by
-- the controller of an IDE disk.
--
-- Which file models which part, by the names of the C functions in lower case:
--   Ulib.Text      the string functions of source/ulib/ulib.c: a `char *` is the list of the bytes
--                  from the pointer on
--   Ulib.Memory    memcpy and memcmp: the memory is a function from addresses to bytes
--   Ulib.Format    formatstr, str_to_ip, ip_to_str: the format is read by a machine with two modes,
--                  outside and inside a conversion
--   Ulib.Getstr    getstr: the keys are a list, the buffer is in the memory, the screen a list of
--                  calls; the child Keys is the text that is edited
--   Kernel.Heap    heap_init, heap_alloc, heap_free of source/kernel.c: the heap is the list of its
--                  32 blocks
--   Fs.Types       the structs of source/fs.h and source/kernel.h, and `System`, the state: the disk
--                  table, the blocks of each disk, the faults of the sectors and the clock
--   Fs.Monad       the early returns: `ok`, `err` with the code that is returned, and `spin` for a
--                  loop that has used up its fuel
--   Fs.Disk        io_disk_read and io_disk_write of source/hwio.c, read_disk and write_disk; a
--                  block holds bytes, an entry or a superblock, and `as_bytes`, `as_entry` and
--                  `as_super` are the casts between these views
--   Fs.Table       get_entry_n, write_entry, find_free_entry, find_free_block and the search of
--                  fs_get_entry
--   Fs.Path        disk names, string_to_name, path_get_disk, path_parse_disk_parent_name,
--                  fs_get_entry
--   Fs.Chain       get_nref_entry_from_entry, set_entry_time_to_current, set_entry_refcount,
--                  set_entry_size, get_entry_refcount
--   Fs.Refs        add_ref_in_entry, remove_ref_in_entry
--   Fs.File        fs_read_file, fs_write_file, fs_print_map
--   Fs.Dir         delete_n, fs_delete, fs_create_directory, fs_list
--   Fs.Copy        fs_copy, fs_move
--   Fs.Format      fs_format, fs_init_info, fs_get_info
--   Fs.Time        fs_fstime_to_systime, fs_systime_to_fstime
--   Fs.Frame       what an operation leaves alone, as predicates on operations
--   Net            get_effective_ip, find_mac_in_table, net_checksum, arp_request, arp_reply,
--                  arp_recv_process, ip_recv_process, io_net_recv, io_net_recv_set_port of
--                  source/net.c: the state holds the ARP table and the packet received
--   Net.Send       provide_mac_address, udp_send, ip_send, io_net_send; what the interrupts do
--                  during a call of wait is a parameter, a function on the state
--   Nas            the tables of source/programs/nas.c: the instructions are a data type
--   Nas.Encode     encode_instruction, encode_data; the child Decode says what the processor reads
--   Nas.Find       find_instruction
--   Nas.Symbols    find_or_add_symbol, find_symbol, append_symbol_ref
--   Nas.Lines      sisu, read_line, tokenize_line
--   Nas.Assemble   main, by its steps: it runs on the state of the file system
--   Edit.Linecol   the conversions between offsets and places of source/programs/edit.c
--   Edit.Show      editor_putchar, next_line, show_buffer_at_line
--   Edit.Keys      the actions of the keys and the update of the display
--   Edit.Session   main: the keys pressed are a list
--   Hwio.Screen    io_vga_putc, io_vga_putc_attr, io_vga_clear, io_vga_getcursorpos,
--                  io_vga_setcursorpos, io_vga_showcursor of source/hwio.c, on the memory of
--                  Ulib.Memory and the registers of the controller; the child Terminal is the
--                  abstract terminal
--   Hwio.Keyboard  kb_get and io_getkey: a list of what the two ports give; the child Modifiers is
--                  the abstract keyboard
--   Hwio.Clock     BCD_to_int, io_getdatetime: the registers are a function of the number of reads
--   Hwio.Chs       lba_to_chs
--   Cli            execute of source/cli.c with makedir, delete, move and copy, and cli_exec_file; the
--                  other commands are a parameter
-- The modules below these hold the theorems, and the modules named Tests the runs and the theorems
-- at concrete inputs.
--
-- Integers are natural numbers; where the C code can wrap around, the remainder modulo 2^32 is
-- written out. An operation that may fail keeps the state that it has reached, as the code does.
--
-- Fuel. A loop whose number of rounds is bounded takes the bound: read_loop and write_loop move at
-- least a byte in each round, nref_loop and skip_loop pass 120 references. A loop along the chain of
-- an entry, or a recursion into directories, need not end on a disk whose links form a cycle; it
-- takes `fuel` or `depth`, and ends in `spin` when that is used up; so does the loop of the
-- assembler over the lines of its file, and that of a script over its lines. For an entry without
-- chained entries a fuel of one more than its number of items is enough, which the theorems on references
-- prove. The rounds of io_getdatetime are bounded by the moment from which the clock is quiet.
--
-- What is not modelled: the BIOS calls and the ports behind disk_read_sector and disk_write_sector,
-- of which the state says for each sector with which code it fails; the debug output; the
-- drivers for the serial port, the timer, the sound card and the network card; the Ethernet
-- header and its CRC, which eth_send puts around a packet; the other commands of the command
-- line; the other programs. A path is
-- changed in place by string_to_name in C: `clean_path` gives the changed path where it is used
-- again. An index past the references of an entry reads 0 and writes nothing.
pub mod Common
pub mod Ulib
pub mod Kernel
pub mod Fs
pub mod Net
pub mod Nas
pub mod Edit
pub mod Hwio
pub mod Cli
