-- ===== src/Log.antt =====
-- inc/MicroBitLog.h and source/MicroBitLog.cpp: a log of rows in a non-volatile memory, with a table of
-- its headings and a journal of where its data ends. This file has the state and what it is made of.
pub mod Text
pub mod Columns
pub mod Starting
pub mod Loading
pub mod Rows
pub mod Reading
pub mod Cleaning
mod Tests
use codal_microbit_v.Base.{
  ℕ, zero, suc, ◌+◌, ◌-◌, ◌*◌, ◌/◌, ◌%◌, ◌^◌, ◌≤◌, ◌<◌, ◌≡◌, Bool, true, false, not, ◌&&◌, List, [],
  ◌∷◌, ◌++◌, length, take, drop, replicate, ltb, leb, ◌==◌, if◌then◌else◌, Memory, Result, ok, err,
}
use codal_microbit_v.FsCache
use codal_microbit_v.FsCache.Access
use codal_microbit_v.Log.Text.{codes}

-- What the log stands on. `nvm`, `page_size` and `erase` are the controller's, which the flash manager of
-- the interface chip implements; `header` is the page of HTML that the build generates, of 2048 bytes;
-- `daplink` is the version that the interface chip tells. `strtoul`, of base 16, and `decimal`, the
-- digits of a number, come from libraries.
pub record Board : Type 0 where
  pub nvm : FsCache.Nvm
  pub page_size : ℕ
  pub erase : Memory → ℕ → Memory
  pub header : List ℕ
  pub header_is_page : length header ≡ 2048
  pub daplink : ℕ
  pub strtoul : List ℕ → ℕ
  pub decimal : ℕ → List ℕ

abbrev pub metadata_size : ℕ
metadata_size = 2048

abbrev pub journal_size : ℕ
journal_size = 4096

abbrev pub cache_block_size : ℕ
cache_block_size = 256

abbrev pub journal_entry_size : ℕ
journal_entry_size = 8

-- `sizeof(header)` and `sizeof(MicroBitLogMetaData)`.
abbrev pub header_bytes : ℕ
header_bytes = 2048

abbrev pub meta_size : ℕ
meta_size = 45

-- `MICROBIT_LOG_VERSION`: "UBIT_LOG_FS_V_002" and a newline.
abbrev pub log_version : List ℕ
log_version = codes "UBIT_LOG_FS_V_002\n"

pub record LogMetaData : Type 0 where
  pub version : List ℕ
  pub log_end : List ℕ
  pub data_start : List ℕ
  pub daplink_version : List ℕ

abbrev pub meta_bytes : LogMetaData → List ℕ
meta_bytes m = m.version ++ (m.log_end ++ (m.data_start ++ m.daplink_version))

pub record ColumnEntry : Type 0 where
  pub key : List ℕ
  pub value : List ℕ

pub data TimeStampFormat : Type 0 where
  no_format milliseconds seconds minutes hours days : TimeStampFormat

-- The enumeration's value, in units of which the time is logged.
pub divisor : TimeStampFormat → ℕ
divisor no_format = 0
divisor milliseconds = 1
divisor seconds = 10
divisor minutes = 600
divisor hours = 36000
divisor days = 864000

pub data LogEvent : Type 0 where
  log_full new_row new_header : LogEvent

-- The file that the interface chip shows: MicroBitUSBFlashConfig, of which the name is constant.
pub record FileConfig : Type 0 where
  pub present : Bool
  pub file_size : ℕ
  pub visible : Bool

-- `row_data` has `headingCount` entries. The four bits of `status` are fields; the events raised, the
-- text sent over the serial port and the number of remounts are noted.
pub record Log : Type 0 where
  pub cache : FsCache.Cache
  pub initialised : Bool
  pub row_started : Bool
  pub full : Bool
  pub serial_mirror : Bool
  pub start_address : ℕ
  pub journal_pages : ℕ
  pub journal_start : ℕ
  pub journal_head : ℕ
  pub data_start : ℕ
  pub data_end : ℕ
  pub log_end : ℕ
  pub heading_start : ℕ
  pub heading_length : ℕ
  pub row_count : ℕ
  pub headings_changed : Bool
  pub time_stamp_changed : Bool
  pub row_data : List ColumnEntry
  pub meta_data : LogMetaData
  pub time_stamp_format : TimeStampFormat
  pub time_stamp_heading : List ℕ
  pub file_config : FileConfig
  pub remounts : ℕ
  pub events : List LogEvent
  pub serial : List ℕ

abbrev pub heading_count : Log → ℕ
heading_count l = length l.row_data

abbrev pub notify : LogEvent → Log → Log
notify e l = record l { events = l.events ++ e ∷ [] }

module _ (board : Board) where
  open board use {nvm}

  -- `cache.read` into a buffer that holds `old`, and `cache.write`, of which the result is not looked at.
  unfoldable pub fetched : List ℕ → Result (List ℕ) × FsCache.Cache → List ℕ × FsCache.Cache
  fetched old (ok bytes, c) = (bytes, c)
  fetched old (err e, c) = (old, c)

  abbrev pub fetch : FsCache.Cache → ℕ → List ℕ → List ℕ × FsCache.Cache
  fetch c address old = fetched old (Access.read nvm c address (length old))

  unfoldable pub cache_write : Log → ℕ → List ℕ → Log
  cache_write l address bytes = record l { cache = (Access.write nvm l.cache address bytes).1 }

  -- Past the cache.
  unfoldable pub direct_write : Log → ℕ → List ℕ → Log
  direct_write l address bytes = record l {
    cache = record l.cache { flash = nvm.write l.cache.flash address bytes };
  }

  unfoldable pub direct_erase : Log → ℕ → Log
  direct_erase l page = record l {
    cache = record l.cache { flash = board.erase l.cache.flash page };
  }
