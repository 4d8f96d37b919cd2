-- ===== src/Sandbox/Seccomp/Encoding.antt =====
-- The bytes of the filter hold its instructions.
use axl_raja.Prelude.{
  ℕ, ◌+◌, ◌*◌, ◌/◌, ◌%◌, ◌<◌, true, Option, none, some, List, [], ◌∷◌, ◌≡◌, refl, All, arith, all,
  ltb, eqb, not, if◌then◌else◌,
}
use axl_raja.Sandbox.Seccomp.{
  Architecture, x64, arm64, audit, denied, Instruction, instruction, denials, instructions_of,
  encode, build_seccomp_filter, seccomp_ret_kill_process, seccomp_ret_eperm, seccomp_ret_allow,
}
use axl_raja.Sandbox.Seccomp.Verdict.{SeccompData, execute, includes, execute-instructions_of}

-- struct sock_filter, as the kernel reads it: eight bytes, little-endian.
abbrev pub add : Instruction → Option (List Instruction) → Option (List Instruction)
add i none = none
add i (some rest) = some (i ∷ rest)

pub decode : List ℕ → Option (List Instruction)
decode [] = some []
decode (c0 ∷ c1 ∷ jt ∷ jf ∷ k0 ∷ k1 ∷ k2 ∷ k3 ∷ bytes) =
    add (instruction (c0 + 256 * c1) jt jf (k0 + 256 * k1 + 65536 * k2 + 16777216 * k3))
      (decode bytes)
decode _ = none

-- The fields fit into their bytes.
abbrev pub IsInRange : Instruction → Type 0
IsInRange i = (i.code < 65536) × (i.jt < 256) × (i.jf < 256) × (i.value < 4294967296)

uint16_le-value : (n : ℕ) → n % 256 + 256 * (n / 256) ≡ n
uint16_le-value n = omega arith

uint32_le-value :
    (n : ℕ)
    → n < 4294967296
    → n % 4294967296 % 256
        + 256 * (n % 4294967296 / 256 % 256)
        + 65536 * (n % 4294967296 / 65536 % 256)
        + 16777216 * (n % 4294967296 / 16777216)
      ≡ n
uint32_le-value n h = omega arith

-- The bytes of any instructions whose fields are in range decode to the same instructions.
decode-encode :
    (instructions : List Instruction)
    → All IsInRange instructions
    → decode (encode instructions) ≡ some instructions
unfolding decode encode
decode-encode [] h = refl
decode-encode (i ∷ instructions) ((c, t, f, v), h) =
    simp (uint16_le-value i.code, uint32_le-value i.value v, decode-encode instructions h)

denials-IsInRange :
    (syscalls : List ℕ)
    → all (λ n. ltb n 4294967296) syscalls ≡ true
    → All IsInRange (denials syscalls)
unfolding denials
denials-IsInRange [] h = ((omega arith, omega arith, omega arith, omega arith), tt)
denials-IsInRange (n ∷ syscalls) h = (
  (omega arith, omega arith, omega arith, ground arith),
  ((omega arith, omega arith, omega arith, omega arith), denials-IsInRange syscalls (ground arith)),
)

denied_in_range : (arch : Architecture) → all (λ n. ltb n 4294967296) (denied arch) ≡ true
unfolding denied
denied_in_range x64 = refl
denied_in_range arm64 = refl

audit_in_range : (arch : Architecture) → audit arch < 4294967296
unfolding audit
audit_in_range x64 = omega arith
audit_in_range arm64 = omega arith

instructions_of-IsInRange : (arch : Architecture) → All IsInRange (instructions_of arch)
unfolding instructions_of
instructions_of-IsInRange arch = (
  (omega arith, omega arith, omega arith, omega arith),
  (
    (omega arith, omega arith, omega arith, audit_in_range arch),
    (
      (omega arith, omega arith, omega arith, omega arith),
      (
        (omega arith, omega arith, omega arith, omega arith),
        denials-IsInRange (denied arch) (denied_in_range arch),
      ),
    ),
  ),
)

decode-build_seccomp_filter :
    (arch : Architecture) → decode (build_seccomp_filter arch) ≡ some (instructions_of arch)
unfolding build_seccomp_filter
decode-build_seccomp_filter arch =
    decode-encode (instructions_of arch) (instructions_of-IsInRange arch)

-- The bytes that `buildSeccompFilter` returns are a program of the BPF machine, and that program
-- reaches a verdict on every system call: the process is killed where the call is of another
-- architecture, a denied call fails with EPERM, and any other call is allowed.
pub build_seccomp_filter-verdict :
    (arch : Architecture) (d : SeccompData)
    → (program : List Instruction) × (decode (build_seccomp_filter arch) ≡ some program)
      × (execute d 0 0 program
          ≡ some (
              if not (eqb d.arch (audit arch))
              then seccomp_ret_kill_process
              else if includes d.nr (denied arch)
              then seccomp_ret_eperm
              else seccomp_ret_allow))
build_seccomp_filter-verdict arch d =
    (instructions_of arch, decode-build_seccomp_filter arch, execute-instructions_of arch d 0)
