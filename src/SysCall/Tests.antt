-- ===== src/SysCall/Tests.antt =====
-- A process of one page that asks for a system call that there is not.
use risc_v_os.Base.{ℕ, ◌-◌, ◌≡◌, ◌^◌, refl, ◌==◌, if◌then◌else◌}
use risc_v_os.Base.Family.{update}
use risc_v_os.Base.Outcome.{Outcome, done, panic}
use risc_v_os.SysCall.{Caller, argraw, handle_syscall}

abbrev caller : Caller
caller = record {
  mem_size = 4096;
  pagetable = 0x80100000;
  register = λ k. if k == 7 then 22 else 5;
}

abbrev no_calls : ℕ → ℕ → Outcome (ℕ × ℕ)
no_calls number r = panic

answers_minus_one :
    handle_syscall no_calls caller 3
    ≡ done (record caller { register = update caller.register 0 (2 ^ 32 - 1) }, 3)
unfolding handle_syscall
answers_minus_one = refl

sixth_argument : argraw 6 caller ≡ panic
unfolding argraw
sixth_argument = refl
