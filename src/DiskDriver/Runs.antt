-- ===== src/DiskDriver/Runs.antt =====
-- The driver as a disk of bytes with a cursor.
use neuclear.Base.{
  ℕ, suc, ◌+◌, ◌-◌, ◌/◌, ◌%◌, ◌<◌, ◌≡◌, refl, ◌∙◌, ap, inl, inr, List, [], ◌∷◌, Bool-cases, arith,
  length, ltb, leb, ◌&&◌, get_or, if◌then◌else◌, word,
}
use neuclear.Base.Int.{ℤ, pos, negsuc}
use neuclear.Base.Outcome.{Outcome, ok, ◌>>=◌}
use neuclear.BlockCache.{BlockDevice, Cached, State, sync, sync_all, block_size}
use neuclear.BlockCache.View.{BlockDeviceLaws, sync_all-flushes}
use neuclear.BlockCache.View.Synced.{length-sync_all, sync_all-IsValid, sync_all-view}
use neuclear.DiskDriver.{
  DiskDriver, start, end, current, position, checked_add_signed, at_offset, seek, driver_read,
  driver_write, flush,
}
use neuclear.DiskDriver.Blocks.{NoUsers, view}
use neuclear.DiskDriver.Flat.{bytes_from, over, bytes_from_same}
use neuclear.DiskDriver.Ready.{IsReady}
use neuclear.DiskDriver.Chunks.{place, byte}
use neuclear.DiskDriver.ByteDisk.{
  Call, reading, writing, seeking, syncing, Answer, bytes, counted, sought, synced, ByteDisk,
  answer, answers, Fits, AllFit,
}
use neuclear.DiskDriver.Loops.{read_loop-bytes_from, write_loop-over}

module _ (device : BlockDevice) where
  pub perform : Call → DiskDriver → State device → Outcome (Answer × DiskDriver × State device)
  perform (reading n) d s = do (bs, d', s') ← driver_read device n d s; ok (bytes bs, d', s')
  perform (writing buf) d s = do (n, d', s') ← driver_write device buf d s; ok (counted n, d', s')
  perform (seeking from) d s = do (p, d') ← seek from d; ok (sought p, d', s)
  perform syncing d s = ok (synced, d, flush device s)

  unfoldable pub run :
      List Call → DiskDriver → State device → Outcome (List Answer × DiskDriver × State device)
  unfolding perform
  run [] d s = ok ([], d, s)
  run (call ∷ calls) d s = do
    (a, d', s') ← perform call d s
    (as', d'', s'') ← run calls d' s'
    ok (a ∷ as', d'', s'')

  sync_all-NoUsers :
      (queue : List Cached) (disk : device.Disk)
      → NoUsers queue
      → NoUsers (sync_all device queue disk).0
  unfolding sync_all
  sync_all-NoUsers [] disk n = tt
  sync_all-NoUsers (c ∷ queue) disk (free, n) =
      (free, sync_all-NoUsers queue (sync device c.block disk).1 n)

  module _ (laws : BlockDeviceLaws device) where
    -- The driver over the cache shows this disk.
    pub record Shows (disk : ByteDisk) (d : DiskDriver) (s : State device) : Type 0 where
      pub ready : IsReady device laws s
      pub inside : d.block_offset < block_size
      pub below : disk.cursor < word
      pub at : place d ≡ disk.cursor
      pub content : (q : ℕ) → byte device laws s q ≡ disk.content q

    -- A call gives the disk's answer.
    abbrev Agrees : Answer × ByteDisk → Outcome (Answer × DiskDriver × State device) → Type 0
    Agrees (a, disk) result =
        (d : DiskDriver) × (s : State device) × (result ≡ ok (a, d, s)) × Shows disk d s

    read-Agrees :
        (n : ℕ) (disk : ByteDisk) (d : DiskDriver) (s : State device)
        → Shows disk d s
        → Fits (reading n) disk
        → Agrees (answer (reading n) disk) (perform (reading n) d s)
    unfolding perform driver_read
    read-Agrees n disk d s h (small, room) =
        let (d', s', result, moved, ready, same) =
          read_loop-bytes_from device laws n n d s (omega arith) h.ready h.inside small
            (omega (arith, h.at)) in
        let found : bytes_from (byte device laws s) (place d) n
            ≡ bytes_from disk.content disk.cursor n =
          ap (λ p. bytes_from (byte device laws s) p n) h.at
          ∙ bytes_from_same (byte device laws s) disk.content disk.cursor disk.cursor n
              (λ i l. h.content (disk.cursor + i)) in
        (
          d',
          s',
          rw (result, driver_read) (ap (λ bs. ok (bytes bs, d', s')) found),
          record {
            ready = ready;
            inside = moved.inside;
            below = room;
            at = omega (arith, moved.at, h.at);
            content = λ q. same q ∙ h.content q;
          },
        )

    write-Agrees :
        (buf : List ℕ) (disk : ByteDisk) (d : DiskDriver) (s : State device)
        → Shows disk d s
        → Fits (writing buf) disk
        → Agrees (answer (writing buf) disk) (perform (writing buf) d s)
    unfolding perform driver_write
    write-Agrees buf disk d s h (small, room) =
        let (d', s', result, moved, ready, changed) =
          write_loop-over device laws (length buf) buf d s (omega arith) h.ready h.inside small
            (omega (arith, h.at)) in
        (
          d',
          s',
          rw (result, driver_write) refl,
          record {
            ready = ready;
            inside = moved.inside;
            below = room;
            at = omega (arith, moved.at, h.at);
            content = λ q.
                changed q
                ∙ ap (λ p. over p buf (byte device laws s) q) h.at
                ∙ ap
                    (λ v.
                      if leb disk.cursor q && ltb q (disk.cursor + length buf)
                      then get_or buf (q - disk.cursor) 0
                      else v)
                    (h.content q);
          },
        )

    position-place : (d : DiskDriver) → place d < word → position d ≡ place d
    unfolding position
    position-place d h = omega arith

    at_offset-Shows :
        (p : ℕ) (disk : ByteDisk) (d : DiskDriver) (s : State device)
        → p < word
        → Shows disk d s
        → Shows (record disk { cursor = p }) (at_offset p) s
    unfolding at_offset
    at_offset-Shows p disk d s small h = record {
      ready = h.ready;
      inside = omega arith;
      below = small;
      at = omega arith;
      content = h.content;
    }

    -- A seek from the cursor.
    sought-Agrees :
        (k : ℤ) (disk : ByteDisk) (d : DiskDriver) (s : State device)
        → Shows disk d s
        → Agrees (answer (seeking (current k)) disk) (perform (seeking (current k)) d s)
    unfolding perform seek checked_add_signed
    sought-Agrees (pos n) disk d s h =
        let here : position d ≡ disk.cursor =
          position-place d (omega (arith, h.at, h.below)) ∙ h.at in
        elim (Bool-cases (ltb (disk.cursor + n) word)) [
          | inl fits ↦
              rw (here, fits)
                (
                  at_offset (disk.cursor + n),
                  s,
                  refl,
                  at_offset-Shows (disk.cursor + n) disk d s (ground arith) h,
                )
          | inr beyond ↦ rw (here, beyond) (d, s, refl, h)
        ]
    sought-Agrees (negsuc n) disk d s h =
        let here : position d ≡ disk.cursor =
          position-place d (omega (arith, h.at, h.below)) ∙ h.at in
        elim (Bool-cases (ltb n disk.cursor)) [
          | inl fits ↦
              rw (here, fits)
                (
                  at_offset (disk.cursor - suc n),
                  s,
                  refl,
                  at_offset-Shows (disk.cursor - suc n) disk d s (omega (arith, h.below)) h,
                )
          | inr below ↦ rw (here, below) (d, s, refl, h)
        ]

    flush-IsReady :
        (s : State device) → IsReady device laws s → IsReady device laws (flush device s)
    unfolding flush
    flush-IsReady s r = record {
      valid = sync_all-IsValid device laws s.queue s.disk r.valid;
      fits = omega (arith, r.fits, length-sync_all device laws s.queue s.disk);
      free = sync_all-NoUsers s.queue s.disk r.free;
      full = λ id. ap length (sync_all-view device laws s.queue s.disk id) ∙ r.full id;
    }

    -- What was flushed is on the device.
    pub flush-stored :
        (s : State device) (id : ℕ)
        → IsReady device laws s
        → device.read_block id (flush device s).disk ≡ view device laws s id
    unfolding flush
    flush-stored s id r = sync_all-flushes device laws s.queue s.disk id r.valid

    perform-Agrees :
        (call : Call) (disk : ByteDisk) (d : DiskDriver) (s : State device)
        → Shows disk d s
        → Fits call disk
        → Agrees (answer call disk) (perform call d s)
    unfolding perform flush seek
    perform-Agrees (reading n) disk d s h fits = read-Agrees n disk d s h fits
    perform-Agrees (writing buf) disk d s h fits = write-Agrees buf disk d s h fits
    perform-Agrees (seeking (start p)) disk d s h fits =
        (at_offset p, s, refl, at_offset-Shows p disk d s fits h)
    perform-Agrees (seeking (end k)) disk d s h fits = absurd fits
    perform-Agrees (seeking (current k)) disk d s h fits = sought-Agrees k disk d s h
    perform-Agrees syncing disk d s h fits = (
      d,
      flush device s,
      refl,
      record {
        ready = flush-IsReady s h.ready;
        inside = h.inside;
        below = h.below;
        at = h.at;
        content = λ q.
            ap (λ xs. get_or xs (q % block_size) 0)
              (sync_all-view device laws s.queue s.disk (q / block_size))
            ∙ h.content q;
      },
    )

    -- A run of calls on the driver that stays on the disk, with buffers below 4 GiB and without a seek
    -- from the end, never panics and answers like a disk of bytes with a cursor: a read is what was
    -- last written there, across blocks, whatever the cache replaces meanwhile. Afterwards the driver
    -- shows the bytes of that disk, if it showed those before.
    pub run-Shows :
        (calls : List Call) (disk : ByteDisk) (d : DiskDriver) (s : State device)
        → Shows disk d s
        → AllFit calls disk
        → let (as', disk') = answers calls disk in
          (d' : DiskDriver) × (s' : State device) × (run calls d s ≡ ok (as', d', s'))
          × Shows disk' d' s'
    unfolding run
    run-Shows [] disk d s h fits = (d, s, refl, h)
    run-Shows (call ∷ calls) disk d s h (first, later) =
        let (d₁, s₁, e, h₁) = perform-Agrees call disk d s h first in
        let (d', s', e', h') = run-Shows calls (answer call disk).1 d₁ s₁ h₁ later in
        (d', s', rw (e, e', run) refl, h')

    -- After any run that stays on the disk, with buffers below 4 GiB and without a seek from the end,
    -- a flush brings to the device every byte that the disk of bytes has
    -- after the same calls, if the driver showed that disk before.
    pub run-flush :
        (calls : List Call) (disk : ByteDisk) (d : DiskDriver) (s : State device)
        → Shows disk d s
        → AllFit calls disk
        → let (as', disk') = answers calls disk in
          (d' : DiskDriver) × (s' : State device) × (run calls d s ≡ ok (as', d', s'))
          × ((q : ℕ)
              → get_or
                  (device.read_block (q / block_size) (flush device s').disk)
                  (q % block_size)
                  0
                ≡ disk'.content q)
    run-flush calls disk d s h fits =
        let (d', s', e, h') = run-Shows calls disk d s h fits in
        (
          d',
          s',
          e,
          λ q.
              ap (λ xs. get_or xs (q % block_size) 0) (flush-stored s' (q / block_size) h'.ready)
              ∙ h'.content q,
        )
