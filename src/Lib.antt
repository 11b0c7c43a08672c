-- ===== src/Lib.antt =====
-- The operating system of mp3/student-distrib: its file system, screens, keyboard, clock, paging,
-- interrupt controller, timer, and its processes, up to the instructions that switch the processor;
-- and of the game in mp2 its world, its commands, the scrolling view, the input and the driver of the
-- Tux controller.
--
-- The parts and how they interact. The keyboard interrupt (keyboard.c) echoes a character with
-- putc (lib.c) on the terminal that is displayed and puts it into that terminal's buffer;
-- terminal_read (terminal.c) waits for the enter key and copies the line. putc writes through the
-- video page, which memory_switch (terminal.c) points to the display or to a backup screen by way of the
-- page table (page.c). The clock (rtc.c) divides one interrupt among three terminals. The
-- system calls (system_calls.c) find the current process from the kernel stack pointer and go
-- through its descriptors to the drivers and to the file system (filesystem.c).
--
-- Which file models what:
--   Memory: memcpy, memmove and the memsets of lib.c over a memory that is a function from addresses
--     to bytes.
--   Strings: strlen and strncmp of lib.c, over the list of a string's bytes; Buffers has the routines that
--     write strings: strrev, itoa, strcpy and strncpy, over a buffer with a size.
--   FileSystem: filesystem.c. The three static pointers and file_idx are a record; the boot block, the
--     index nodes and the blocks are read from the memory at those addresses.
--   Paging: page.c; Translate has the processor's translation.
--   Console: putc, puts and clear of lib.c, memory_switch of terminal.c, cursor.c; Printf has printf.
--   Pic: i8259.c. Rtc: rtc.c. Keyboard: keyboard.c. TerminalDriver: terminal.c.
--   Process: the control blocks of system_calls.c; SystemCalls has open, close, read, write,
--     getargs and vidmap, Signals the signals, Command the command line of execute, Pids the
--     process numbers and the schedule of execute, halt and pit.c, Pages the page of a program, Switching
--     execute, halt and pit_handler as wholes, with Outcomes the specification of execute, and Tree the
--     processes of the three terminals over time.
--   ModeX: the scrolling view of mp2/modex.c; Show has what is displayed, Rows and Columns the lines that are
--     drawn, Window and Moves the window's place in the build buffer and what is kept when it moves.
--   Tux: the driver of the Tux controller, mp2/module/tuxctl-ioctl.c.
--   Input: the typed characters and the commands of mp2/input.c.
--   World: mp2/world.c. The rooms, the objects, their links and the flags are a record; a pointer
--     to a room or an object is its index, or none for NULL. Rooms, Things, RoomTable and
--     ObjectTable are the tables, Build is build_world, State has the record, Moves, Tasks,
--     Commands and Devices are the commands. Objects has the lists that the links stand for, Find
--     and Flags the lookups, and Progress what stays true in any game.
--   Adventure: the typed commands, the motion of the view and the game loop's answer to one
--     input, of mp2/adventure.c; Commands has the list of verbs and reads a line, Verbs compares
--     the verbs, Views has the view on the photo, Typed the commands on a world.
--   Text: text_to_image of mp2/text.c, which draws the status bar.
--   Prelude: shared names, 32-bit words, lists and arrays. Tests: the theorems at concrete inputs.
--
-- Conventions. An int32_t or uint32_t is its bit pattern, below 2 ^ 32, and arithmetic on it wraps
-- where the code's can; signed tests are written out. A C array is a function of the
-- index; where the code has no bound of its own, an access past the end is a fault, an outcome of its own.
-- Bytes sent to ports are a list, the newest first; bytes read from ports are arguments.
--
-- Bounds and fuel. Loops of the code run on their number of rounds. The wait of RTC_read runs on fuel,
-- the clock interrupts to come; one virtual period is enough. The wait of terminal_read runs on the
-- list of scan codes to come, and says when they do not end it. The walks along the objects of a room run
-- on 21 rounds, one more than there are objects, which is enough because no object is in a list twice.
--
-- A switch of the processor is an outcome: which stack it takes, and with what. The 4 MB page of a
-- program is kept by its frame when another one is mapped.
--
-- In the game, font_data of text.c is a parameter, and so are read_photo and read_obj_image of
-- photo.c, in build_world; the photos and images are numbers with a size, and rand is a stream of
-- numbers that the world carries. A command that would use a NULL room has no outcome.
--
-- Not modelled. sigreturn and KILL, which work on the hardware context that the assembly linkage leaves on the
-- stack; idt.c, which fills a table once; boot code, descriptor tables and assembly; tests.c; the user
-- programs; the program in mp1; and of the adventure game in mp2 the photos, the threads and ticks of
-- the game loop, and the setting of the VGA registers.
pub mod Prelude
pub mod Memory
pub mod Strings
pub mod FileSystem
pub mod ModeX
pub mod Tux
pub mod Input
pub mod Paging
pub mod Console
pub mod Pic
pub mod Rtc
pub mod Keyboard
pub mod TerminalDriver
pub mod Process
pub mod World
pub mod Adventure
pub mod Text
pub mod Tests
