-- ===== src/DiskDriver/ByteDisk.antt =====
-- What the FAT library sees of the driver: a disk of bytes with a cursor.
use neuclear.Base.{
  ℕ, suc, ◌+◌, ◌-◌, ◌^◌, ◌<◌, List, [], ◌∷◌, Option, none, some, length, ltb, if◌then◌else◌, word,
}
use neuclear.Base.Int.{pos, negsuc}
use neuclear.DiskDriver.{SeekFrom, start, end, current}
use neuclear.DiskDriver.Flat.{bytes_from, over}

-- A call of the FAT library, and the answer.
pub data Call : Type 0 where
  reading : ℕ → Call
  writing : List ℕ → Call
  seeking : SeekFrom → Call
  syncing : Call

pub data Answer : Type 0 where
  bytes : List ℕ → Answer
  counted : ℕ → Answer
  sought : Option ℕ → Answer
  synced : Answer

-- The bytes of a disk, with a cursor.
pub record ByteDisk : Type 0 where
  pub content : ℕ → ℕ
  pub cursor : ℕ

-- Where a seek leads; a place below 0 or beyond 64 bits is none.
abbrev pub target : ℕ → SeekFrom → Option ℕ
target cursor (start n) = some n
target cursor (end k) = none
target cursor (current (pos n)) = if ltb (cursor + n) word then some (cursor + n) else none
target cursor (current (negsuc n)) = if ltb n cursor then some (cursor - suc n) else none

abbrev pub jump : Option ℕ → ByteDisk → ByteDisk
jump none disk = disk
jump (some p) disk = record disk { cursor = p }

abbrev pub answer : Call → ByteDisk → Answer × ByteDisk
answer (reading n) disk =
    (bytes (bytes_from disk.content disk.cursor n), record disk { cursor = disk.cursor + n })
answer (writing buf) disk = (
  counted (length buf),
  record { content = over disk.cursor buf disk.content; cursor = disk.cursor + length buf },
)
answer (seeking from) disk = (sought (target disk.cursor from), jump (target disk.cursor from) disk)
answer syncing disk = (synced, disk)

abbrev pub answers : List Call → ByteDisk → List Answer × ByteDisk
answers [] disk = ([], disk)
answers (call ∷ calls) disk =
    let (a, disk') = answer call disk in
    let (as', disk'') = answers calls disk' in (a ∷ as', disk'')

-- The calls stay on a disk of 2 ^ 64 bytes, with buffers below 4 GiB, and no seek is from the end.
abbrev pub Fits : Call → ByteDisk → Type 0
Fits (reading n) disk = (n < 2 ^ 32) × (disk.cursor + n < word)
Fits (writing buf) disk = (length buf < 2 ^ 32) × (disk.cursor + length buf < word)
Fits (seeking (start n)) disk = n < word
Fits (seeking (end k)) disk = ⊥
Fits (seeking (current k)) disk = Unit
Fits syncing disk = Unit

abbrev pub AllFit : List Call → ByteDisk → Type 0
AllFit [] disk = Unit
AllFit (call ∷ calls) disk = Fits call disk × AllFit calls (answer call disk).1
