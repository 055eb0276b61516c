-- ===== src/Lib.antt =====
-- Frewozet, a 32-bit kernel for the i386 with a shell on the VGA text screen.
--
-- The parts and how they interact
--   loader2.asm leaves the E820 memory map, page tables that map the first 4 MiB at 0xC0000000,
--   and the kernel. kmain (kernel.c) starts the screen (terminal.c), the descriptor tables (gdt.c,
--   idt.c) and the interrupt controllers (pic.c), then the bootstrap heap (memory.c), the physical
--   page allocator (pmm.c) and paging (paging.c); from then on the heap takes its pages from the
--   page allocator and maps them by paging. At last it starts the timer (timer.c) and the shell.
--   What happens afterwards is interrupts: interrupt_handler (idt.c) counts ticks and hands
--   scancodes to keyboard.c, which drives the shell's line editor (shell.c). Enter cuts the line
--   into arguments (shell_parser.c), looks the command up in a hash table (command_hashtable.c) and
--   calls it (shell_commands.c); commands use the terminal, the heap, paging and the memory map.
--
-- The files, and the code they are about
--   Base: the comparisons and conditionals of C, words of fixed width, bits, lists, loops.
--   Pmm (pmm.c): the bitmap is a function from word indices to words. Bitmap has the laws of its
--     bits, Ranges the two range operations, Alloc and Free allocation and freeing, Count the
--     counting of free pages and the allocation below a limit.
--   Paging (paging.c, mmu.h): physical memory is a function from addresses to 32-bit words, and
--     every access goes through the direct map. Entry has the fields of an entry, Tables the
--     invariant of the tables, Lookup, Create, Map and Unmap the operations.
--   PmmInit (pmm.c): pmm_init, with the pages it keeps from being handed out in Reserved, a region
--     that reaches 4 GiB in Top, and the start without an E820 map in NoMap.
--   Heap (memory.c): the block list of the heap. Tiles says that the blocks lie end to end, Split
--     is about taking a block.
--   Memory (memory.c): the state of the allocators. Bootstrap is the allocator before paging, Grow
--     and Alloc are heap_grow and kmalloc, Payload and Aligned the functions on top.
--     NoPages and Room are about the heap before the page allocator has a page.
--   RamMapper (ram_mapper.c): the E820 map, with the total of usable memory in Total.
--   StartupError (startup_error.c): the log of startup errors, with its guard in Overflow.
--   CString (string.c): Compare has the comparisons, Holds what is written, TextOf what is read.
--   Ctype (ctype.c): letters and their case.
--   Utils (utils.c, calc.c): numbers in text; Print is about reading what was printed.
--   CommandTable (command_hashtable.c): Lookup is about finding commands, Room about registering
--     one while the bootstrap heap has room.
--   Terminal (terminal.c): Scroll has the screen cell by cell, Cursor the cursor.
--   Shell (shell.c): Line and Edits have the line editor, History the ring of old lines. Invariant
--     says what the shell keeps to between two keys; EditsKept, Browse and Kept are about the
--     edits, the arrow keys, and Enter and the prompt. Load has shell_load_buffer.
--   Tokenizer (shell_parser.c): Fields has the fields of a line as lists, without pointers; Blanks,
--     Cut, Points and Refines follow the tokenizer through a line, Progress is about
--     the end of its loops, and RoundTrip starts from words.
--   Commands (shell_commands.c): what the commands share. Calc, Text, Control, Status and Storage
--     have the commands, Table the table of them and the two ways to find one. Lookup, Register,
--     Help, Arith and Totals are about these.
--   Keyboard (keyboard.c): the key maps and scancodes, with the case of letters in Case.
--   System (keyboard.c, shell.c): keyboard_handle, shell_handle_char and shell_init over the whole
--     state. Invariant and Keys are about any sequence of keys, Enter about a line that is entered,
--     Typing about the keys that type it.
--   Timer (timer.c), Pic (pic.c), Gdt (gdt.c), Idt (idt.c): devices and tables of the processor.
--   Kernel (kernel.c, idt.c): kmain and interrupt_handler. Interrupts is about one interrupt, Start
--     about kmain and the interrupts behind it, Typing about a line
--     that is typed after it, NoMap about a machine without an E820 map.
--   The module Tests of each component runs its definitions on concrete values.
--
-- How the code is translated
--   The static variables of a file are a record, and a function that writes them returns a new
--   one. Unsigned words are natural numbers with their wrap-around written out. A null pointer is
--   the number 0 where the code tests it. `none` is a page fault where paging is involved. A
--   string that is read is the list of the bytes before its terminating NUL; a pointer into it is
--   what is left of the list. A memory that is written is a function from addresses. What is
--   written to ports is a list that the screen's record keeps, so that the order is kept too; what
--   is read from a port is an argument. The state of the whole kernel is one record of these
--   records, and a handler takes and returns it. A run of a handler ends in one of four ways, the
--   constructors of Run: it returns, it stops the processor, it raises an exception, or it faults.
--   A function pointer of a command is its place in the table shell_commands.
--
-- Bounds
--   The loops over page ranges run max_pages + 1 rounds at most: a range of 32-bit addresses has
--   no more than max_pages = 2 ^ 20 pages. Every other loop is recursion on the rounds that its
--   counter has left, or on the list it walks. The digits of a number take 20 rounds, enough for
--   2 ^ 64. A string in a line buffer ends within its 128 bytes, so the tokenizer's
--   loops have 128 rounds when Enter calls it; each round passes over a character at least.
--
-- Assumptions
--   The first 4 MiB of physical memory are mapped at 0xC0000000 and nothing else is reached by
--   the direct map, as loader2.asm sets it up: an access beyond faults. That map stays: unmapping or
--   mapping anew a page of it changes what paging_translate gives, and not what paging.c reads later. Accesses of paging.c are
--   words at multiples of 4. The headers of the heap's blocks are kept apart from its payload, so
--   a client that writes outside its block is not modelled. A command
--   that gets no room for its node or its name when it is registered is a page fault, of the write
--   through null or of the next comparison with the name. kcalloc faults where it clears about 4 GiB
--   behind a block of no bytes. What parse_hex32 reads from an uninitialised
--   variable is an argument, and so is what argv[0] of an empty line or a missing argument points to.
--   A command's page fault is the end of its run and keeps no state, and so does writing through a
--   null pointer, since the first page is unmapped when commands run. Strings are below 2 ^ 31
--   characters. The stubs of isr_irq.asm pass the frame of their interrupt.
--
-- Not modelled
--   The assembly files (boot.asm, loader2.asm, entry.asm, isr_irq.asm, gdt_flush.asm) and what loads
--   the descriptor tables, switches interrupts on or waits for one: these have no state that the C
--   code reads. cmd_help, which is declared and nowhere defined. The functions that only return a
--   static variable are fields of the records. The line buffer that a command's
--   arguments point into: a command gets them as strings, and no command writes them.
pub mod Base
pub mod Pmm
pub mod Paging
pub mod Heap
pub mod RamMapper
pub mod StartupError
pub mod Memory
pub mod CString
pub mod Utils
pub mod CommandTable
pub mod Terminal
pub mod Shell
pub mod PmmInit
pub mod Ctype
pub mod Timer
pub mod Pic
pub mod Gdt
pub mod Keyboard
pub mod Tokenizer
pub mod Commands
pub mod System
pub mod Idt
pub mod Kernel
