-- ===== src/Lib.antt =====
-- The partition tables, mounts, swaps, file systems and targets of growlight, a manager of block
-- devices for Linux.
--
-- The program reads the state of all disks from sysfs and libblkid, shows it through a terminal
-- interface, and changes disks on request. A request to change a partition table goes through
-- src/ptable.c to one of the backends: src/gpt.c, src/msdos.c, src/apm.c. A backend opens the disk, maps
-- its first sectors (and, for a GPT, its last ones) MAP_SHARED, stores into the mapping, and tells the
-- kernel by the BLKPG ioctl of src/ptable.c. Types of partitions are translated by src/ptypes.c, and
-- src/mbr.c zeroes the boot sector's parts.
--
-- The tables of devices are kept in step with the machine: src/mounts.c reads /proc/mounts and writes
-- each mount to the device that src/growlight.c finds under its name, and src/swap.c does so with
-- /proc/swaps. src/fs.c makes file systems by commands that src/popen.c hands to the shell. src/target.c
-- keeps the directory where a system is to be installed: while mounts are read its directory is opened,
-- and at the end the mounts below it are written to its etc/fstab. src/aggregate.c names the kinds of
-- aggregates, which src/mdadm.c and src/zfs.c make by commands. src/readline/readline.c reads commands
-- from a terminal and calls all of these.
--
-- Files:
--   Prelude   names and helpers that all share: Boolean tests, list functions, 32 and 64-bit words
--   Memory    bytes by address, with memset, memcpy and little-endian members; Memory/Laws proves
--             how loads, stores and copies meet
--   Io        the system calls as actions on a World: the disk's bytes, the counts of calls, of open
--             descriptors and of mappings, and the messages that the kernel took
--   Device    struct device and struct partdev of src/growlight.h
--   Blkpg     blkpg_add_partition and blkpg_del_partition of src/ptable.c
--   Ptypes    src/ptypes.c: the table, and the lookups by code and by what libblkid prints
--   Gpt       src/gpt.c: Header (update_crc, initialize_gpt), Backup (update_backup), Create (write_gpt,
--             new_gpt, zap_gpt), Map (map_gpt, unmap_gpt), Edit (name, uuid, flags, flag, code, delete,
--             first and last usable sector), Add (add_gpt)
--   Mbr       src/mbr.c: mbrsha1 and the wipes of the boot sector
--   Msdos     src/msdos.c: creation, adding, editing and deleting of primary partitions
--   Apm       src/apm.c: creation, zeroing and the first sector of an Apple partition map
--   Text      texts as lists of bytes: the tests of ctype.h, words, decimal numbers, strtoull
--   Devices   the tables of devices and lookup_device of src/growlight.c, the string lists of
--             src/growlight.h
--   Logs      add_log and get_logs of src/growlight.c
--   Popen     src/popen.c: the commands for the shell
--   Fs        src/fs.c: Table (the types), Commands (the functions that make them), making and wiping
--   Swap      src/swap.c: starting and stopping; Lines parses /proc/swaps
--   Mounts    src/mounts.c: the parser and its loop, Handle (handle_mount), Unmount (mmount, unmount,
--             clear_mounts), Options (flag_for_mountop)
--   Target    src/target.c: setting the target, Fstab (the dump of the mounts), Final (the dump of the
--             modules, finalize_target)
--   Stats     src/stats.c: Lines and Files read back what the kernel prints
--   Sampling  timeval_subtract and alignment of src/growlight.c
--   Aggregate src/aggregate.c: the table, the assembly; Make (the commands of src/mdadm.c and src/zfs.c
--             that make an aggregate), Md (explore_md_sysfs of src/mdadm.c)
--   Serial    cleanup_serial of src/sg.c
--   Match     devices_match_p and match_device of src/growlight.c
--   Boot      write_postbase_hook, prepare_bios_boot and prepare_uefi_boot of src/growlight.c
--   Readline  src/readline/readline.c: Numbers (wstrtoull, extract_partition_spec), Tokens (tokenize),
--             Listing (the loops that print), Handlers (the commands), Session (the table of the
--             commands, tty_ui)
--   Ptable    src/ptable.c: the table of the three backends, and the functions that go through it
--
-- A function of the source is the definition of the same name. In the modules on partition tables a
-- definition is an action on the World:
-- its outcome is a value (ok), the source's error value -1, NULL or MAP_FAILED (fail), or a fault
-- (abort) where an assertion fails, a divisor is zero, a pointer is NULL, or an access leaves its
-- mapping. Every store of the source to a mapping is a store to the disk. Members of packed structures
-- are little-endian numbers at their byte offsets. Numbers keep the widths of the source, by `% 2 ^ 32`
-- and `% 2 ^ 64`. All loops are bounded by counts in the source, and are structural recursion on the
-- rounds left: no fuel is needed.
--
-- The record Os holds what is not part of the program: the page size, which system calls fail (any
-- pattern of failures), random bytes, zlib's crc32 with the fact that it reads only the bytes that it
-- is given, nettle's sha1, the byte order of the kernel's headers, and iconv with the fact that it does
-- not write past its buffer. Theorems hold for every Os, unless they name a page size of 4096 bytes or
-- a little-endian host. The rescans of src/growlight.c and the run of fsck are parameters.
--
-- In the other modules a function takes the state and gives whether it failed, the state behind it, and
-- the commands or calls that it made; none of an Option stands for a read that the language does not
-- define, or for fuel that has run out. The loops over a text have fuel: a number above the length of
-- the text, which is enough because every round takes a byte off (Mounts/Parse, Devices/Names, Stats);
-- tokenize's loop takes a character off (Readline/Lexing); alignment has 64 rounds, one for each bit. Records
-- (Shell, Kernel, Host, Disk) hold the answers of the shell and the kernel, in any pattern. The
-- controller of the virtual devices is in every list of controllers of the program, and has no driver.
--
-- A handler of the line-mode interface runs on any state W with a Backend: a record of the calls that it
-- makes, of the lookups, and of the flag that ends the session, with the law that setting it is seen.
-- The locale is a record too (Locale); IsAscii, IsNarrow, IsAdvancing and KeepsLower say what its manual
-- pages promise of it.
--
-- Not modelled: messages to the user, errno, failed allocations outside of the partition tables, sleeps
-- between retries and locks, and the parts of the program that discover devices (create_new_device is a
-- parameter of the lookups) or draw the terminal: of the
-- line-mode interface the functions that print one line for a device, of src/notcurses everything.
pub mod Prelude
pub mod Text
pub mod Memory
pub mod Io
pub mod Device
pub mod Devices
pub mod Logs
pub mod Popen
pub mod Blkpg
pub mod Ptypes
pub mod Gpt
pub mod Mbr
pub mod Msdos
pub mod Apm
pub mod Ptable
pub mod Fs
pub mod Swap
pub mod Mounts
pub mod Target
pub mod Stats
pub mod Sampling
pub mod Aggregate
pub mod Serial
pub mod Match
pub mod Boot
pub mod Readline
