-- ===== src/Sandbox/Seccomp/Verdict.antt =====
-- What the kernel decides when it runs the filter on a system call.
use axl_raja.Prelude.{
  ℕ, zero, suc, Bool, false, ◌||◌, not, Option, none, some, List, [], ◌∷◌, ◌≡◌, refl, eqb,
  if◌then◌else◌, arith, Bool-cases, inl, inr,
}
use axl_raja.Sandbox.Seccomp.{
  bpf_ld_w_abs, bpf_jmp_jeq_k, bpf_ret_k, seccomp_ret_kill_process, seccomp_ret_eperm,
  seccomp_ret_allow, Architecture, audit, denied, Instruction, denials, instructions_of,
}

-- the fields of struct seccomp_data that the filter loads: `nr` at offset 0 and `arch` at offset 4
pub record SeccompData : Type 0 where
  pub nr : ℕ
  pub arch : ℕ

abbrev pub load : SeccompData → ℕ → Option ℕ
load data_ offset =
    if eqb offset 0 then some data_.nr else if eqb offset 4 then some data_.arch else none

abbrev after_load : (ℕ → Option ℕ) → Option ℕ → Option ℕ
after_load continue none = none
after_load continue (some v) = continue v

-- The BPF machine: how many instructions it jumps over, the accumulator, and the rest of the
-- program. None says that the program is not valid.
unfoldable pub execute : SeccompData → (skip accumulator : ℕ) → List Instruction → Option ℕ
execute data_ skip a [] = none
execute data_ (suc skip) a (i ∷ program) = execute data_ skip a program
execute data_ zero a (i ∷ program) =
    let loaded = after_load (λ v. execute data_ 0 v program) (load data_ i.value) in
    let taken = execute data_ i.jt a program in
    let passed = execute data_ i.jf a program in
    if eqb i.code bpf_ret_k
    then some i.value
    else if eqb i.code bpf_ld_w_abs
    then loaded
    else if eqb i.code bpf_jmp_jeq_k
    then (if eqb a i.value then taken else passed)
    else none

abbrev pub includes : ℕ → List ℕ → Bool
includes n [] = false
includes n (m ∷ l) = eqb n m || includes n l

execute-denials :
    (d : SeccompData) (nr : ℕ) (syscalls : List ℕ)
    → execute d 0 nr (denials syscalls)
      ≡ some (if includes nr syscalls then seccomp_ret_eperm else seccomp_ret_allow)
unfolding execute denials
execute-denials d nr [] = refl
execute-denials d nr (syscall ∷ syscalls) = ground (arith, execute-denials d nr syscalls)

-- The verdict of the instructions, whatever the accumulator holds.
pub execute-instructions_of :
    (arch : Architecture) (d : SeccompData) (a : ℕ)
    → execute d 0 a (instructions_of arch)
      ≡ some (
          if not (eqb d.arch (audit arch))
          then seccomp_ret_kill_process
          else if includes d.nr (denied arch)
          then seccomp_ret_eperm
          else seccomp_ret_allow)
unfolding execute instructions_of
execute-instructions_of arch d a = elim (Bool-cases (eqb d.arch (audit arch))) [
  | inl e ↦ ground (arith, execute-denials d d.nr (denied arch))
  | inr e ↦ ground arith
]
