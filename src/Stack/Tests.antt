-- ===== src/Stack/Tests.antt =====
-- The stack of a program with one argument.
use neuclear.Base.{ℕ, ◌+◌, ◌≡◌, refl, [], ◌∷◌, Option, some, arith, inl}
use neuclear.Base.Outcome.{ok}
use neuclear.Stack.{StackInit, InfoBlock, init_stack}
use neuclear.Stack.Push.{Translates}
use neuclear.Stack.Strings.{HasRoom}
use neuclear.Stack.Start.{IsLaidOut, init_stack-IsLaidOut}

-- The pages from 0x10000 to 0x12000, where the kernel sees them 0x70000 further up.
abbrev shifted : ℕ → ℕ
shifted va = va + 0x70000

abbrev moved_up : ℕ → Option ℕ
moved_up va = some (va + 0x70000)

shifted-Translates : Translates moved_up 0x10000 0x12000 shifted
shifted-Translates = record {
  finds = λ va low high. refl;
  runs_on = λ va low high inside. omega arith;
  apart = λ va va' a b c d e. omega arith;
  aligned = λ va low high. omega arith;
  fits = λ va low high. omega arith;
  below_word = omega arith;
}

abbrev one_arg : InfoBlock
one_arg = record { args = (b'h' ∷ b'i' ∷ []) ∷ []; envs = []; auxv = (6, 0x1000) ∷ [] }

abbrev top : StackInit
top = record { sp = 0x12000; sp_kernel_va = 0; memory = λ q. 0 }

room_for_arg : HasRoom moved_up 0x10000 0x12000 shifted shifted-Translates 122 top
room_for_arg = record { room = omega arith; top = omega arith; followed = inl refl }

init_stack-IsLaidOut_example :
    (argv_base : ℕ) × (s : StackInit) × (init_stack moved_up 1 2 one_arg top ≡ ok (argv_base, s))
    × IsLaidOut moved_up 0x10000 0x12000 shifted shifted-Translates one_arg argv_base s
init_stack-IsLaidOut_example =
    init_stack-IsLaidOut moved_up 0x10000 0x12000 shifted shifted-Translates 1 2 one_arg top refl
      room_for_arg refl
