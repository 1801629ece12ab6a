-- ===== src/Lib.antt =====
-- Models and proofs for codal-microbit-v2, the runtime of the BBC micro:bit V2.
--
-- The runtime is a set of C++ components over the chip and the vendor's Bluetooth stack. Modelled
-- here are components that keep data of their own.
--
-- * Uart models inc/bluetooth/MicroBitUARTService.h and source/bluetooth/MicroBitUARTService.cpp, a
--   serial port over Bluetooth. Uart/State has the class as a record, with the constructor (init) and
--   the sizes; Uart/Receive has onDataWritten, getc, read, readUntil, eventOn and eventAfter;
--   Uart/Transmit has send, sendNext, onConfirmation and onDisconnect. Methods return the new record
--   beside their result. Events raised and values indicated are logged in the record. What happens
--   while a fiber sleeps is a parameter, wait: any change of the record by other fibers and callbacks.
--   So is the constructor of the core library's strings, managed_string.
--   The loop of send in sleeping mode takes fuel, since it runs until the peer has confirmed all; the
--   loops over a buffer take the buffer's size as fuel, which is enough as no walk goes round twice.
-- * Flash models source/MicroBitFlash.cpp: need_erase, flash_burn and flash_write over a memory of
--   bytes. The flash controller is hardware and so a parameter, the record Chip, with what its manual
--   says of programming and erasing. Both ways to reach it (registers, SoftDevice) have that effect,
--   so that one function models both, and the waiting is left out.
-- * FsCache models inc/FSCache.h and source/FSCache.cpp: the cache of a file system's blocks. FsCache
--   has the entries, getCacheEntry, cachePage with its choice of an entry, pin, unpin and erase;
--   FsCache/Access has read and write, with the loops on the bytes left as fuel, which is enough as
--   every round moves at least one byte. The memory behind the cache is part of the state. The
--   controller, an interface of the core library, is the record Nvm.
-- * Radio models source/MicroBitRadio.cpp, MicroBitRadioDatagram.cpp and MicroBitRadioEvent.cpp:
--   packets on their way from the interrupt (on_radio_end) over the receive queue and idleCallback
--   (Radio/Delivery) to the queue of datagrams and the event model, sending, and setSleep. The
--   three classes are one record. The event model is a parameter, fire. The fuel of idle_callback
--   is one round for each packet queued. The chip's registers are left out. A copy past the end of a
--   frame's payload is the result none.
-- * FileSystem models inc/MicroBitFileSystem.h and source/MicroBitFileSystem.cpp, files on the flash
--   memory of Flash: the state and the block table (FileSystem), getFreeBlock, getFreePage and
--   recycling (FileSystem/Blocks), directories (FileSystem/Directory), init, load and format
--   (FileSystem/Format), and open files: walks and writes (FileSystem/Files), flush, close, seek, read
--   and write (Files/Access), open, remove and createDirectory (Files/Naming). The directory entries
--   and the table are bytes in memory. Loops along chains take as fuel a bound on the chain's length.
-- * File models inc/MicroBitFile.h and source/MicroBitFile.cpp, files by their names over FileSystem.
-- * FlashManager models inc/NRF52FlashManager.h and source/NRF52FlashManager.cpp, words in a region of
--   the memory of Flash. Which requests to write the SoftDevice takes is a parameter, sd_accepts. One
--   that it refuses is made again for ever, and without it a word at another address than a word's
--   faults: both are the result none.
-- * Log models inc/MicroBitLog.h and source/MicroBitLog.cpp, rows of text in a memory behind the cache of
--   FsCache: numbers as text and cleanBuffer (Log/Text), addHeading and the columns (Log/Columns),
--   _setVisibility, _setTimeStamp and _clear (Log/Starting), _isPresent, init, getNumberOfStoredRows and
--   _invalidate (Log/Loading), _logString, _logData, _beginRow and _endRow (Log/Rows), and readData,
--   getRow, getRows and the headings (Log/Reading). The record Board has the controller, the page of
--   HTML that is built in, the interface chip's version and the two functions of libraries. Walks over
--   the data take as fuel the bytes left, or the device's size where they end at an unused byte.
-- * Circular models inc/MicroBitCircularBuffer.h and source/MicroBitCircularBuffer.cpp, a queue of numbers
--   in a ring of bytes: the state and numbers as bytes (Circular), _clearRegion, _insertElement and
--   _logData (Circular/Regions), and push, pop, get and count (Circular/Queue). Following a NULL pointer
--   is the result none. Walks over a region take the number of bytes as fuel.
-- * FastLog models inc/MicroBitFastLog.h and source/MicroBitFastLog.cpp, rows of numbers that are collected
--   in the queue of Circular: logging (FastLog), and saveLog (FastLog/Saving), which takes rows out of
--   the queue, for as many rounds as it has elements, and logs them as text through Log.
-- * Base has the shared helpers: tests, lists with native lengths, slices, runs of bytes in memory,
--   circular buffers (Base/Ring), and the bit operations (Base/Bits).
--
-- Not modelled: the drivers of pins, timers, displays and sensors, which set registers of the chip;
-- sound synthesis and the compass's calibration, which compute in floating point; the configuration of
-- the Bluetooth stack; and the memory map, packet buffers and the link to the interface
-- chip, which have no model yet.
--
-- Addresses and sizes are natural numbers; where the source computes in a fixed width the wrap is
-- written out, or the theorem's hypotheses keep the values below it.
pub mod Base
pub mod Uart
pub mod Flash
pub mod FsCache
pub mod Radio
pub mod FileSystem
pub mod File
pub mod FlashManager
pub mod Log
pub mod Circular
pub mod FastLog
