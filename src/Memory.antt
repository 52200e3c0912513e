-- ===== src/Memory.antt =====
-- kernel/src/memory: the frame allocator, the memory manager and the kernel heap.
pub mod Kmalloc
pub mod Startup
pub mod Frames
pub mod Manager
pub mod Heap
