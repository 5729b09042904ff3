-- ===== src/Lib.antt =====
-- PseudoFS: two simulated file systems, a UNIX one and FAT16, on a virtual disk.
--
-- The program keeps a disk in memory and builds a file system on it. The UNIX engine is made of
-- layers, each of which calls the one below it; the FAT16 engine works on the blocks itself. Both
-- use the same block device and table of open files, and implement one interface. On top of it
-- stand a shell, with the commands and their log, and the command line mode, which serves one user
-- at a time.
--
--   Layout         include/core/constants.h: the layout of the disk and the limits.
--   BlockDevice    src/core/block_device.cpp: the disk, read and written in blocks.
--   SuperBlock     src/fs/unix/super_block.cpp: the free data blocks, in groups that are linked
--                  through the free blocks themselves, and a stack of free inode numbers.
--   Inode          src/fs/unix/inode.cpp: inodes on disk, their cache in memory, and the map from
--                  the logical blocks of a file to blocks of the disk, with up to two indirections.
--   Directory      src/fs/unix/directory.cpp: directories as files of entries, and paths.
--   OpenFileTable  src/core/open_file_table.cpp: each user's descriptors over one system table.
--   UserManager    src/core/user_manager.cpp: accounts, the session, and the rwx check.
--   UnixFs         src/fs/unix/unix_fs.cpp: the engine over all of these. Its root module has the
--                  life of a volume, create, close, read and write; Links has open and the two
--                  kinds of links, Dirs delete and directories, Stat what `fs_ls` and `fs_stat`
--                  show and `fs_chmod`, Usage the state of the blocks, Recursive `rm -r`.
--   Fat16          src/fs/fat16/fat16_fs.cpp: the second engine. Its root module has the allocation
--                  table; Volume has format and mount, Names the 8.3 names, Entries and Sizes the
--                  directory entries in their clusters, Paths the resolution of paths, Files,
--                  Writing, Dirs and Recursive the handlers.
--   Vfs            include/core/vfs.h: the interface of an engine as a record of operations;
--                  Engines has the two engines as such records, Sample a small one for tests.
--   Shell          src/shell/command_registry.cpp: Tokens has the tokenizer, Glob the wildcards,
--                  Registry the command table, `execute` and the operation log.
--   Commands       src/main.cpp, the handlers: Accounts, Dirs, Descriptors, Files, Details (with
--                  Columns) and Trees have groups of commands, Table the others and
--                  `register_commands`.
--   Session        src/main.cpp, the command line mode: Terminal reads lines and shows pages; the
--                  root module has the loop, and how engine, accounts and log start and end. Disks
--                  says where an engine keeps its device.
--   Common         arrays, words, C strings and lists that the parts share.
--
-- State and operations. A class is a record of its fields and a method is a function of the same
-- name from state to result and state; a layer that holds references to those below carries their
-- state: `Volume` is the block device and the super block, `Inodes` is a volume with the cache. A
-- pointer into the cache or the system table is the index of its slot. A status of 0 or -1 is an
-- integer of `Common.Int`, a Boolean, or an `Option` where a value comes with it. The children of
-- a part are named for what they prove; its `Tests` has runs and concrete cases.
--
-- Integers are natural numbers, with `% 2 ^ 16` and `% 2 ^ 32` where a field or an expression of
-- the source wraps. Arrays are functions from the index, so an index out of range is not an error
-- here; the invariants (`Holds`, `HoldsInodes`, `Counted`, `Owned`) keep the indices in range. A
-- struct on disk is its little-endian bytes. The text of a command is a list of bytes without NUL;
-- an exception of a handler is an `Outcome`, and so is a loop that does not end within its bound.
-- A `char` field is the string before its NUL, and a field of an 8.3 name its bytes. A buffer that
-- a failed read leaves unset reads as zeros. The clock is an argument.
--
-- Abstract views. `SuperBlock.FreeList.Holds v free` says that the stack in memory and the groups
-- on disk hold the list `free`, each block once, and that the count is right; `balloc` and `bfree`
-- are specified as pop and push of that list. `OpenFileTable.Views.view` is what a descriptor
-- stands for, without the sharing. `Directory.Names` reads the entries as a map from names.
-- `Fat16.Owned.Owned fat chains` says that the chains of the allocation table share no cluster and
-- own every cluster that is not free; the operations on the table are operations on that family.
-- `Shell.Patterns.Matches` is what a pattern stands for, without the loop, and
-- `Commands.Copying.Files` what a copy needs of an engine with a finite disk. It is met by the
-- sample engine of `Vfs.Sample`, whose writes are short when it is full, and by the FAT16 engine
-- for a file that is read into a descriptor that takes nothing (`Commands.FatCopy`); that a write
-- of an engine leaves another open file alone is not shown.
--
-- Fuel. `build_groups` has fuel for all 2048 data blocks and takes 50 in each pass.
-- `collect_chain` counts down the bound that the source has, of 2048 groups. `split_from` has fuel
-- for every byte of the path, and `read_loop` and `write_loop` for every byte asked for; each pass
-- takes at least one. `follow` counts down the 16 links that the source follows at most, and
-- `free_loop`, `count_loop` and `chain_loop` the bound of 2000 clusters that the source has.
-- `last_loop`, which has no bound in the source, has fuel for every entry of the table, which is
-- enough on a chain. `match_loop` has fuel for every pair of places in the pattern and the text,
-- `tokens_loop` and `mkdir_loop` for every character, `copy_loop` for a file of 2^32 bytes, behind
-- which the command hangs, and `show_pages` for every line. `depth` bounds the calls of `execute`
-- that `replay` makes; two levels are enough for a log that grew from an empty one, and where the
-- levels run out the command hangs (`hung`), as it does in the source when a line of the log runs
-- `replay`. `cli_loop` has fuel for every part of the input, and is stuck in a command that hangs.
-- `find` and `tree` count down the depth that the source has. `fs_delete_recursive` has fuel for
-- the depth of the directories, and gives no result when they are deeper. The other loops are
-- recursions on a count or on a list.
--
-- Not modelled: the terminal interface (src/tui), whose windows are input and output over ncurses,
-- and in src/main.cpp the reading of the program's arguments, the installation of the signal
-- handler and the branch that starts that interface. The input of the command line is a list of
-- bytes, ends of file and signals, and the texts before and behind its loop are not printed.
-- `localtime` with `strftime` is a parameter of the commands that show a time. Opening and writing
-- files of the host succeed. Exceptions other than those of `stoi` and `stoul`, such as a lack of
-- memory, do not occur.
pub mod Common
pub mod Layout
pub mod BlockDevice
pub mod SuperBlock
pub mod Inode
pub mod Directory
pub mod OpenFileTable
pub mod UserManager
pub mod UnixFs
pub mod Fat16
pub mod Vfs
pub mod Shell
pub mod Commands
pub mod Session
