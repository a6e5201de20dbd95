-- ===== src/Memory/Fork/Copying.antt =====
-- Copying the pages of one area.
use neuclear.Base.{
  ℕ, zero, suc, ◌+◌, ◌^◌, ◌<◌, ◌≤◌, ◌≡◌, ◌≢◌, refl, sym, ◌∙◌, ap, Bool, true, false, some, arith,
  ℕ_discrete,
}
use neuclear.Base.Outcome.{ok}
use neuclear.Config.{pte_per_page}
use neuclear.Memory.Fork.{copy_page, copy_range}
use neuclear.Memory.Frames.{Buddy, Memory, begin_frame}
use neuclear.Memory.PageTable.{PageTable, State, translate, pte_ppn}
use neuclear.Memory.PageTable.Apart.{Agrees, IsTree-Agrees, bits_at-Agrees}
use neuclear.Memory.PageTable.Descend.{IsTable}
use neuclear.Memory.PageTable.Map.{entry_of, entry_of-entry_at, translate-entry_of}
use neuclear.Memory.PageTable.Pool.{BuddyLaws, held_frames}
use neuclear.Memory.PageTable.Tree.{Place, elsewhere}

copy_page_self :
    (src dst : ℕ) (m : Memory) (i : ℕ) → i < pte_per_page → copy_page src dst m dst i ≡ m src i
copy_page_self src dst m i h = ground arith

copy_page_ne : (src dst : ℕ) (m : Memory) (f i : ℕ) → f ≢ dst → copy_page src dst m f i ≡ m f i
copy_page_ne src dst m f i ne = ground arith

module _ (buddy : Buddy) (laws : BuddyLaws buddy) (ekernel : ℕ)
    (room : laws.capacity + begin_frame buddy ekernel < 2 ^ 44) where
  abbrev pub with_memory : State buddy ekernel → Memory → State buddy ekernel
  with_memory s m = record s { machine = record s.machine { memory = m } }

  -- Memory that agrees in the tree has the same table.
  pub IsTable-Agrees :
      (s : State buddy ekernel) (place : ℕ → Place) (m : Memory)
      → IsTable buddy laws ekernel room s place
      → Agrees s.machine.memory m place
      → IsTable buddy laws ekernel room (with_memory s m) place
  IsTable-Agrees s place m t agrees = record {
    tree = IsTree-Agrees s.machine.memory m s.table.root_ppn _ _ place t.tree agrees (λ f h. h);
  }

  pub entry_of-Agrees :
      (s : State buddy ekernel) (place : ℕ → Place) (m : Memory)
      → IsTable buddy laws ekernel room s place
      → Agrees s.machine.memory m place
      → (v : ℕ)
      → entry_of buddy laws ekernel room (with_memory s m) v ≡ entry_of buddy laws ekernel room s v
  entry_of-Agrees s place m t agrees v =
      entry_of-entry_at buddy laws ekernel room (with_memory s m) v
      ∙ bits_at-Agrees s.machine.memory m s.table.root_ppn _
          (held_frames buddy laws ekernel room s.machine.pool) place t.tree agrees _ _ _
      ∙ sym (entry_of-entry_at buddy laws ekernel room s v)

  -- `old` are the frames that were out before, and `m₀` what they hold.
  module _ (m₀ : Memory) (old : ℕ → Bool) where
    abbrev pub Unchanged : Memory → Type 0
    Unchanged m = (f : ℕ) → old f ≡ true → (i : ℕ) → m f i ≡ m₀ f i

    -- Page `v` of the old space lies in frame `src`, as long as the old frames are unchanged.
    pub record Source (user : PageTable) (v src : ℕ) : Type 0 where
      pub reads : (m : Memory) → Unchanged m → translate user m v ≡ some src
      pub out : old src ≡ true

    -- Page `v` of the new space lies in frame `dst`, which is new, and not in the tree.
    pub record Target (s : State buddy ekernel) (place : ℕ → Place) (v dst : ℕ) : Type 0 where
      pub bits : ℕ
      pub found : entry_of buddy laws ekernel room s v ≡ some bits
      pub points : pte_ppn bits ≡ dst
      pub outside : place dst ≡ elsewhere
      pub new : old dst ≡ false

    pub Target-Agrees :
        (s : State buddy ekernel) (place : ℕ → Place) (m : Memory) (v dst : ℕ)
        → IsTable buddy laws ekernel room s place
        → Agrees s.machine.memory m place
        → Target s place v dst
        → Target (with_memory s m) place v dst
    Target-Agrees s place m v dst t agrees target = record {
      bits = target.bits;
      found = entry_of-Agrees s place m t agrees v ∙ target.found;
      points = target.points;
      outside = target.outside;
      new = target.new;
    }

    -- The frames of the pages have the bytes of their sources; no other frame has changed.
    pub record CopiedRange (vpn count : ℕ) (src frame : ℕ → ℕ) (m m' : Memory) : Type 0 where
      pub pages :
          (v : ℕ)
          → vpn ≤ v
          → v < vpn + count
          → (i : ℕ) → i < pte_per_page
          → m' (frame v) i ≡ m₀ (src v) i
      pub others :
          (f : ℕ) → ((v : ℕ) → vpn ≤ v → v < vpn + count → f ≢ frame v) → (i : ℕ) → m' f i ≡ m f i

    pub copy_range-CopiedRange :
        (count vpn : ℕ) (user : PageTable) (s : State buddy ekernel) (place : ℕ → Place)
        (src frame : ℕ → ℕ)
        → IsTable buddy laws ekernel room s place
        → Unchanged s.machine.memory
        → ((v : ℕ) → vpn ≤ v → v < vpn + count → Source user v (src v))
        → ((v : ℕ) → vpn ≤ v → v < vpn + count → Target s place v (frame v))
        → ((v w : ℕ) → vpn ≤ v → v < w → w < vpn + count → frame v ≢ frame w)
        → (m' : Memory) × (copy_range buddy ekernel count vpn user s ≡ ok (with_memory s m'))
          × CopiedRange vpn count src frame s.machine.memory m'
    unfolding copy_range
    copy_range-CopiedRange zero vpn user s place src frame t same sources targets apart = (
      s.machine.memory,
      refl,
      record { pages = λ v low high. absurd (omega arith); others = λ f h i. refl },
    )
    copy_range-CopiedRange (suc count) vpn user s place src frame t same sources targets apart =
        let source = sources vpn (omega arith) (omega arith) in
        let target = targets vpn (omega arith) (omega arith) in
        let m₁ = copy_page (src vpn) (frame vpn) s.machine.memory in
        let read : translate user s.machine.memory vpn ≡ some (src vpn) =
          source.reads s.machine.memory same in
        let written : translate s.table s.machine.memory vpn ≡ some (frame vpn) =
          translate-entry_of buddy laws ekernel room s vpn target.bits target.found
          ∙ ap some target.points in
        let agrees : Agrees s.machine.memory m₁ place = λ f in_tree i.
          copy_page_ne (src vpn) (frame vpn) s.machine.memory f i
            (λ e. in_tree (ap place e ∙ target.outside)) in
        let (m', result, copied) =
          copy_range-CopiedRange count (suc vpn) user (with_memory s m₁) place src frame
            (IsTable-Agrees s place m₁ t agrees)
            (λ f h i.
              copy_page_ne (src vpn) (frame vpn) s.machine.memory f i
                (λ e. cc (h, target.new, ap old e))
              ∙ same f h i)
            (λ v low high. sources v (omega arith) (omega arith))
            (λ v low high.
              Target-Agrees s place m₁ v (frame v) t agrees (targets v (omega arith) (omega arith)))
            (λ v w low l high. apart v w (omega arith) l (omega arith)) in
        (
          m',
          rw (read, written, copy_range) result,
          record {
            pages = λ v low high. elim (ℕ_discrete v vpn) [
              | yes e ↦ rw e λ i inside.
                  copied.others (frame vpn)
                    (λ w low' high' e'. apart vpn w (omega arith) (omega arith) (omega arith) e') i
                  ∙ copy_page_self (src vpn) (frame vpn) s.machine.memory i inside
                  ∙ same (src vpn) source.out i
              | no ne ↦ copied.pages v (omega arith) (omega arith)
            ];
            others = λ f h i.
                copied.others f (λ v low high. h v (omega arith) (omega arith)) i
                ∙ copy_page_ne (src vpn) (frame vpn) s.machine.memory f i
                    (h vpn (omega arith) (omega arith));
          },
        )
