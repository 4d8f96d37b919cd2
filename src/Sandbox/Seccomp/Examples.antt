-- ===== src/Sandbox/Seccomp/Examples.antt =====
-- The filter on concrete system calls.
use axl_raja.Prelude.{List, some, ◌≡◌, refl, eqb, not, if◌then◌else◌, take, [], ◌∷◌}
use axl_raja.Sandbox.Seccomp.{
  x64, audit, denied, Instruction, build_seccomp_filter, instructions_of, seccomp_ret_kill_process,
  seccomp_ret_eperm, seccomp_ret_allow,
}
use axl_raja.Sandbox.Seccomp.Verdict.{SeccompData, execute, includes}
use axl_raja.Sandbox.Seccomp.Encoding.{decode, build_seccomp_filter-verdict}

-- ptrace on x86-64, and read
abbrev ptrace : SeccompData
ptrace = record { nr = 101; arch = 0xc000003e }

abbrev read : SeccompData
read = record { nr = 0; arch = 0xc000003e }

verdict_tests :
    (execute ptrace 0 0 (instructions_of x64) ≡ some seccomp_ret_eperm)
    × (execute read 0 0 (instructions_of x64) ≡ some seccomp_ret_allow)
unfolding execute instructions_of
verdict_tests = (refl, refl)

-- the first instruction: LD W ABS 4
bytes_test : take 8 (build_seccomp_filter x64) ≡ 0x20 ∷ 0 ∷ 0 ∷ 0 ∷ 4 ∷ 0 ∷ 0 ∷ 0 ∷ []
unfolding build_seccomp_filter
bytes_test = refl

build_seccomp_filter-verdict_example :
    (program : List Instruction) × (decode (build_seccomp_filter x64) ≡ some program)
    × (execute ptrace 0 0 program
        ≡ some (
            if not (eqb 0xc000003e (audit x64))
            then seccomp_ret_kill_process
            else if includes 101 (denied x64)
            then seccomp_ret_eperm
            else seccomp_ret_allow))
build_seccomp_filter-verdict_example = build_seccomp_filter-verdict x64 ptrace
