-- ===== src/Sandbox/Seccomp.antt =====
-- The seccomp filter (packages/sandbox/src/seccomp.ts): classic BPF instructions and their bytes.
pub mod Verdict
pub mod Encoding
mod Examples
use axl_raja.Prelude.{ℕ, ◌+◌, ◌/◌, ◌%◌, List, [], ◌∷◌, ◌++◌, map}

abbrev pub bpf_ld_w_abs : ℕ
bpf_ld_w_abs = 0x20

abbrev pub bpf_jmp_jeq_k : ℕ
bpf_jmp_jeq_k = 0x15

abbrev pub bpf_ret_k : ℕ
bpf_ret_k = 0x06

abbrev pub seccomp_ret_kill_process : ℕ
seccomp_ret_kill_process = 0x80000000

-- SECCOMP_RET_ERRNO | EPERM: the two numbers share no bit
abbrev pub seccomp_ret_eperm : ℕ
seccomp_ret_eperm = 0x00050001

abbrev pub seccomp_ret_allow : ℕ
seccomp_ret_allow = 0x7fff0000

-- the architectures that have a policy; `buildSeccompFilter` throws for any other
pub data Architecture : Type 0 where
  x64 arm64 : Architecture

unfoldable pub audit : Architecture → ℕ
audit x64 = 0xc000003e
audit arm64 = 0xc00000b7

unfoldable pub denied : Architecture → List ℕ
denied x64 =
    101 ∷ 155 ∷ 165 ∷ 166 ∷ 167 ∷ 168 ∷ 169 ∷ 175 ∷ 176 ∷ 246 ∷ 248 ∷ 249 ∷ 250 ∷ 272 ∷ 298 ∷ 304
    ∷ 308 ∷ 313 ∷ 321 ∷ 323 ∷ 425 ∷ 426 ∷ 427 ∷ []
denied arm64 =
    39 ∷ 40 ∷ 41 ∷ 97 ∷ 104 ∷ 105 ∷ 106 ∷ 117 ∷ 142 ∷ 217 ∷ 218 ∷ 219 ∷ 224 ∷ 225 ∷ 241 ∷ 265 ∷ 268
    ∷ 273 ∷ 280 ∷ 282 ∷ 425 ∷ 426 ∷ 427 ∷ []

pub record Instruction : Type 0 where
  pub code : ℕ
  pub jt : ℕ
  pub jf : ℕ
  pub value : ℕ

abbrev pub instruction : ℕ → ℕ → ℕ → ℕ → Instruction
instruction code jt jf value = record { code = code; jt = jt; jf = jf; value = value }

-- the loop over the denied system calls, and the push after it
unfoldable pub denials : List ℕ → List Instruction
denials [] = instruction bpf_ret_k 0 0 seccomp_ret_allow ∷ []
denials (syscall ∷ syscalls) =
    instruction bpf_jmp_jeq_k 0 1 syscall
    ∷ instruction bpf_ret_k 0 0 seccomp_ret_eperm
    ∷ denials syscalls

-- the array `instructions`
unfoldable pub instructions_of : Architecture → List Instruction
unfolding audit denied denials
instructions_of arch =
    instruction bpf_ld_w_abs 0 0 4
    ∷ instruction bpf_jmp_jeq_k 1 0 (audit arch)
    ∷ instruction bpf_ret_k 0 0 seccomp_ret_kill_process
    ∷ instruction bpf_ld_w_abs 0 0 0
    ∷ denials (denied arch)

-- Buffer.writeUInt16LE and writeUInt32LE; `>>> 0` keeps 32 bits.
abbrev pub uint16_le : ℕ → List ℕ
uint16_le n = n % 256 ∷ n / 256 ∷ []

abbrev pub uint32_le : ℕ → List ℕ
uint32_le n = n % 256 ∷ n / 256 % 256 ∷ n / 65536 % 256 ∷ n / 16777216 ∷ []

unfoldable pub encode : List Instruction → List ℕ
encode [] = []
encode (i ∷ instructions) =
    (uint16_le i.code ++ i.jt ∷ i.jf ∷ uint32_le (i.value % 4294967296)) ++ encode instructions

-- buildSeccompFilter
unfoldable pub build_seccomp_filter : Architecture → List ℕ
unfolding instructions_of encode
build_seccomp_filter arch = encode (instructions_of arch)
