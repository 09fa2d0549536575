-- ===== src/Arch.antt =====
-- Memory management of the kernel: kernel/spectre-kernel/src/arch.
pub mod Addr
pub mod Paging
pub mod Frame
pub mod Idt
pub mod Serial
pub mod Gdt
