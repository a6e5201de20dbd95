-- ===== src/DiskDriver/Tests.antt =====
-- A write over the border of two blocks, read back.
use neuclear.Base.{
  ℕ, ◌/◌, ◌%◌, ◌≡◌, refl, List, [], ◌∷◌, some, arith, replicate, length-replicate, get_or, none,
  zero, suc, ◌==◌, ==_refl, if◌then◌else◌,
}
use neuclear.Base.Int.{negsuc}
use neuclear.Base.Outcome.{ok}
use neuclear.BlockCache.{BlockDevice, State, block_size}
use neuclear.BlockCache.View.{BlockDeviceLaws, view_of}
use neuclear.DiskDriver.{DiskDriver, start, current, flush}
use neuclear.DiskDriver.ByteDisk.{
  Call, reading, writing, seeking, syncing, Answer, bytes, counted, sought, synced, ByteDisk,
  answers,
}
use neuclear.DiskDriver.Runs.{run, Shows, run-Shows, run-flush}

abbrev array : BlockDevice
array = record {
  Disk = ℕ → List ℕ;
  read_block = λ id disk. disk id;
  write_block = λ id bs disk k. if k == id then bs else disk k;
}

array_laws : BlockDeviceLaws array
array_laws = record {
  read-write_self = λ id bs disk. rw (==_refl id) refl;
  read-write_ne = λ id other bs disk ne. ground arith;
}

abbrev zeros : State array
zeros = record { queue = []; disk = λ id. replicate 512 0 }

get_or-replicate : (n i : ℕ) → get_or (replicate {A = ℕ} n 0) i 0 ≡ 0
get_or-replicate zero i = refl
get_or-replicate (suc n) zero = refl
get_or-replicate (suc n) (suc i) = get_or-replicate n i

abbrev blank : ByteDisk
blank = record { content = λ q. 0; cursor = 0 }

abbrev begin : DiskDriver
begin = record { block_id = 0; block_offset = 0 }

zeros-Shows : Shows array array_laws blank begin zeros
unfolding view_of
zeros-Shows = record {
  ready = record {
    valid = tt;
    fits = omega arith;
    free = tt;
    full = λ id. length-replicate {A = ℕ} 512 0;
  };
  inside = omega arith;
  below = omega arith;
  at = refl;
  content = λ q. get_or-replicate 512 (q % block_size);
}

abbrev calls : List Call
calls =
    seeking (start 510)
    ∷ writing (1 ∷ 2 ∷ 3 ∷ [])
    ∷ seeking (current (negsuc 2))
    ∷ reading 4
    ∷ syncing
    ∷ seeking (current (negsuc 999))
    ∷ []

abbrev replies : List Answer
replies =
    sought (some 510)
    ∷ counted 3
    ∷ sought (some 510)
    ∷ bytes (1 ∷ 2 ∷ 3 ∷ 0 ∷ [])
    ∷ synced
    ∷ sought none
    ∷ []

same_replies : (answers calls blank).0 ≡ replies
same_replies = refl

run-Shows_example :
    let (as', disk') = answers calls blank in
    (d' : DiskDriver) × (s' : State array) × (run array calls begin zeros ≡ ok (as', d', s'))
    × Shows array array_laws disk' d' s'
run-Shows_example = run-Shows array array_laws calls blank begin zeros zeros-Shows (omega arith)

run-flush_example :
    let (as', disk') = answers calls blank in
    (d' : DiskDriver) × (s' : State array) × (run array calls begin zeros ≡ ok (as', d', s'))
    × ((q : ℕ)
        → get_or (array.read_block (q / block_size) (flush array s').disk) (q % block_size) 0
          ≡ disk'.content q)
run-flush_example = run-flush array array_laws calls blank begin zeros zeros-Shows (omega arith)
