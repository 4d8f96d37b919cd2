-- ===== src/Sandbox.antt =====
-- packages/sandbox: the system call filter of sandboxed processes.
pub mod Seccomp
