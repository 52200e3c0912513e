-- ===== src/Shared.antt =====
-- kernel_shared: the code that the kernel and its servers have in common.
pub mod Memcpy
