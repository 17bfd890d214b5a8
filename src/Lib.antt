-- ===== src/Lib.antt =====
-- SimpleFlashFs, a copy-on-write filesystem for small flash memories.
--
-- The program. A filesystem lies on a memory (FlashMemoryInterface) in pages of equal size. Page 0
-- is the header page; behind it come the inode pages, and then the data pages, both counted from
-- 0. A page with fields ends with a checksum over the bytes in front of it, which Config::crc32
-- computes. An inode page is free when its checksum is wrong. A filesystem object keeps the
-- header, the set of free data pages, and the set of inode pages that were given to handles and
-- not yet written. Small files lie in the inode page itself, larger ones in data pages.
--
-- The parts, and the files that model them: * Crc models src/crc/crc.c: crcSlow, crcInit and
-- crcFast. An unsigned long has 64 bits. * PageSet models src/base/SimpleFlashFsPageSet.h: a
-- vector of page numbers, sorted when it is asked, whose erased entries stay as NO_DATA. Each
-- method returns the new set. * Bytes models swapByteOrder, auto_endianess and the memcpy of
-- integers in src/base/SimpleFlashFsBase.h, for a host of either byte order. * Fs models
-- src/base/SimpleFlashFsBase.h. Fs.Types has its structs; Fs.Memory the memory, a parameter, with
-- the laws of one that works; Fs.Memory.Sim the memory of src/sim_pc. Fs.Page has pages and
-- checksums, Fs.Inode inode2page and get_inode, Fs.Header the header page, init, and create of
-- src/static/SimpleFlashFsStatic.h, Fs.Alloc the allocators of pages, and Fs.Read read. Fs.Action
-- has the methods that change a handle and the filesystem together, as functions to an outcome;
-- Fs.Store write_page and what allocates pages for a write, Fs.Write write and enlarge_file,
-- Fs.Flush flush and the cleanup behind it, Fs.Versions the InodeVersionStore, find_file and the
-- destructor of a handle, and Fs.Handle open, delete_file, rename_file, seek and truncate. *
-- Fs.Listing models list_files of src/static/SimpleFlashFsStatic.h, Fs.Dynamic the scan of
-- src/dynamic/SimpleFlashFsDynamic.cc, and Fs.NoDel that of src_2face/SimpleFlashFsNoDel.h. *
-- Fs.TwoPages models what SimpleFs2FlashPages of src_2face/SimpleFlashFs2FlashPages.h decides by
-- its two marking files: init_fs, and the memories that cleanup passes through. *
-- FileBuffer models FileBuffer of src_2face/SimpleFlashFsFileBuffer.h and .cc, over a
-- FileInterface that is a record of operations: FileBuffer.Types has the data, FileBuffer.Lines
-- get_line, FileBuffer.Files what a file promises to its buffer, which says of eof no more than
-- FileHandle's keeps, and FileBuffer.Ram a file in memory with that eof that keeps the promise. * Ini models src_2face/SimpleIni.h and .cc over a FileBuffer: Ini
-- the lines and read, Ini.Find the searches, Ini.Insert and Ini.Write what is written,
-- Ini.Numerals, Ini.Values and Ini.Blob the types of values. Ini.Lookup has an ini file as the
-- list of its settings. * TwoFace models src_2face/H7TwoFace.h and .cc over a record of what is
-- called of SimpleFs2FlashPages, with the lock as the counts of the callback's calls;
-- TwoFace.Calls has sequences of calls. * Streams models the functions of
-- src/dynamic/SimpleFlashFsDynamicWrapper.cc on an open file, and the modes of fopen.
--
-- How it is modelled. Methods are functions of the state: the record Fs has the members of
-- SimpleFlashFsBase and the memory, File those of FileHandle. A page and a string are lists of
-- bytes. Where a copy would leave its buffer, or an exception is thrown, the result is none.
-- Machine arithmetic is written out (% 2 ^ 64). Loops over vectors are structural; the loop of
-- read has as many rounds as bytes are wanted, and each round reads one or more; the loop over
-- inode pages has as many rounds as there are inode pages. The mapped and the unmapped variants of
-- the allocator are one function, which reads a page the one way or the other. An action that
-- returns early with false or 0 quits, and keeps what it has done until then; where the code would
-- leave a buffer it faults, and so do the two loops on fuel in writing: allocate_new_data_pages
-- gets two rounds more than the index of the page that is wanted, the loop of write as many rounds
-- as there are bytes, and both are enough. write calls itself once, on a file whose inode has no
-- data; the model has the two calls. So has FileBuffer's write, which calls itself once its buffer
-- is empty. Methods of FileBuffer and of SimpleIni give none for an exception, for an access
-- outside of the buffer, and where the fuel of a loop is used up: get_line gets two rounds more
-- than the file has bytes and read one more, which is enough; the other loops of SimpleIni have as
-- much.
--
-- Parameters: the memory, and Config::crc32, of which only its range of 32 bits is used; and the
-- file filter and the callback of list_files. The file below a FileBuffer, and of the string
-- library strip_view, the strings of fixed capacity and the formats. What TwoFace calls of
-- SimpleFs2FlashPages.
--
-- Not modelled: the copy of the files in cleanup of src_2face/SimpleFlashFs2FlashPages.h, and the
-- map of open files and the registry of instances in src/dynamic. The locks of
-- src/base/SimpleFlashFsLock.h are left out: calls come one after the other. The servers and tools
-- (src_vfs, src_simple_flash_fs_tar) are input and output.
pub mod Prelude
pub mod Crc
pub mod PageSet
pub mod Bytes
pub mod Fs
pub mod FileBuffer
pub mod Ini
pub mod TwoFace
pub mod Streams
