-- ===== src/Stack.antt =====
-- The initial stack of a program: kernel/crates/major/src/task/loader/stack.rs. The kernel's memory is a
-- function from an address to the byte there. The page table does not change meanwhile: what it
-- answers for an address is a parameter.
pub mod Push
pub mod Strings
pub mod Layout
pub mod Halves
pub mod Start
mod Tests
use neuclear.Base.{
  ℕ, zero, suc, ◌+◌, ◌-◌, ◌*◌, ◌/◌, ◌%◌, ◌^◌, List, [], ◌∷◌, ◌++◌, Option, ◌==◌, if◌then◌else◌,
  length, sub64,
}
use neuclear.Base.Outcome.{Outcome, ok, ◌>>=◌, unwrap}
use neuclear.Config.{page_size}

abbrev pub Bytes : Type 0
Bytes = ℕ → ℕ

-- The bytes of a number, the low one first.
unfoldable pub le_bytes : ℕ → ℕ → List ℕ
le_bytes zero v = []
le_bytes (suc n) v = v % 256 ∷ le_bytes n (v / 256)

unfoldable pub store : ℕ → List ℕ → Bytes → Bytes
store va [] memory = memory
store va (b ∷ bs) memory = store (va + 1) bs (λ q. if q == va then b else memory q)

-- `memory` is what the pointers write to.
pub record StackInit : Type 0 where
  pub sp : ℕ
  pub sp_kernel_va : ℕ
  pub memory : Bytes

pub record InfoBlock : Type 0 where
  pub args : List (List ℕ)
  pub envs : List (List ℕ)
  pub auxv : List (ℕ × ℕ)

abbrev pub at_random : ℕ
at_random = 25

module _ (trans_va : ℕ → Option ℕ) where
  unfoldable pub sp_down : ℕ → StackInit → Outcome StackInit
  sp_down len s =
      let sp = sub64 s.sp len in
      if s.sp % page_size == 0
      then (do va ← unwrap (trans_va sp); ok (record s { sp = sp; sp_kernel_va = va }))
      else ok (record s { sp = sp; sp_kernel_va = sub64 s.sp_kernel_va len })

  abbrev pub write_bytes : List ℕ → StackInit → StackInit
  write_bytes bs s = record s { memory = store s.sp_kernel_va bs s.memory }

  unfoldable pub push_byte : ℕ → StackInit → Outcome StackInit
  unfolding sp_down store
  push_byte byte s = do s' ← sp_down 1 s; ok (write_bytes (byte ∷ []) s')

  unfoldable pub push_usize : ℕ → StackInit → Outcome StackInit
  unfolding sp_down store le_bytes
  push_usize ptr s = do s' ← sp_down 8 s; ok (write_bytes (le_bytes 8 ptr) s')

  -- `for &byte in bytes.iter().rev()`
  unfoldable pub push_bytes : List ℕ → StackInit → Outcome StackInit
  unfolding push_byte
  push_bytes [] s = ok s
  push_bytes (b ∷ bs) s = do s' ← push_bytes bs s; push_byte b s'

  -- Leaves the address of the string in `sp`.
  unfoldable pub push_str : List ℕ → StackInit → Outcome StackInit
  unfolding push_bytes
  push_str text s = do s' ← push_byte 0 s; push_bytes text s'

  unfoldable pub push_ptrs : List ℕ → StackInit → Outcome StackInit
  unfolding push_usize
  push_ptrs [] s = ok s
  push_ptrs (p ∷ ps) s = do s' ← push_ptrs ps s; push_usize p s'

  -- `map(|s| self.push_str(&s)).collect()`
  unfoldable pub push_strs : List (List ℕ) → StackInit → Outcome (List ℕ × StackInit)
  unfolding push_str
  push_strs [] s = ok ([], s)
  push_strs (t ∷ ts) s = do s' ← push_str t s; (ptrs, s'') ← push_strs ts s'; ok (s'.sp ∷ ptrs, s'')

  unfoldable pub push_auxv : List (ℕ × ℕ) → StackInit → Outcome StackInit
  unfolding push_usize
  push_auxv [] s = ok s
  push_auxv ((type, value) ∷ auxv) s = do
    s' ← push_usize value s
    s'' ← push_usize type s'
    push_auxv auxv s''

  -- `&= !0b111`
  abbrev pub align : StackInit → StackInit
  align s = record s { sp = s.sp - s.sp % 8; sp_kernel_va = s.sp_kernel_va - s.sp_kernel_va % 8 }

  -- The two times stand for the 16 random bytes.
  unfoldable pub init_stack : ℕ → ℕ → InfoBlock → StackInit → Outcome (ℕ × StackInit)
  unfolding push_usize push_strs push_auxv push_ptrs
  init_stack time time' info s₀ = do
    s₁ ← push_usize 0 s₀
    s₂ ← push_usize time s₁
    s₃ ← push_usize time' s₂
    (envs, s₄) ← push_strs info.envs s₃
    s₅ ← push_usize 0 s₄
    (argv, s₆) ← push_strs info.args s₅
    s₇ ← push_usize 0 (align s₆)
    s₈ ← push_usize 0 s₇
    s₉ ← push_usize at_random s₈
    t₀ ← push_usize s₃.sp s₉
    t₁ ← push_auxv info.auxv t₀
    t₂ ← push_usize 0 t₁
    t₃ ← push_ptrs envs t₂
    t₄ ← push_usize 0 t₃
    t₅ ← push_ptrs argv t₄
    t₆ ← push_usize (length info.args) t₅
    ok (t₅.sp, t₆)
