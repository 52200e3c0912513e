-- ===== src/Boot.antt =====
-- kernel/src/main.rs: the start of the kernel on the boot processor, up to the other processors.
use oxidized.Common.{ℕ, Option, List, Outcome, ◌>>=◌, unwrap}
use oxidized.Common.TreeMap.{TreeMap}
use oxidized.Crates.{BitStore, Paging, PageTables, LockedHeap}
use oxidized.Memory.Frames.{FrameAllocator, MemoryRegion}
use oxidized.Memory.Startup.{initialize_virtual_memory}
use oxidized.Memory.Startup.Clients.{kernel_heap}
use oxidized.Framebuffer.Setup.{FrameBuffer, Screen, init_framebuffer}
use oxidized.Devices.{Device}

-- What `early_init` reads of the boot loader's `BootInfo`.
pub record BootInfo : Type 0 where
  pub physical_memory_offset : Option ℕ
  pub memory_regions : List MemoryRegion
  pub framebuffer : Option FrameBuffer

module _ (B : BitStore) (G : Paging) (P : PageTables (FrameAllocator B)) (L : LockedHeap)
    (fuel flags : ℕ) where
  abbrev pub Kernel : Type 0
  Kernel = Screen (kernel_heap B G P L fuel flags)

  -- The page tables, the frames, the heap, and then the frame buffer, whose buffers come from that heap;
  -- `active` are the tables in use, and `rounds` is the fuel for the device's id.
  pub early_init :
      ℕ → P.Tables → Kernel → TreeMap Device → BootInfo → Outcome (Kernel × TreeMap Device)
  early_init rounds active s tree boot_info = do
    offset ← unwrap boot_info.physical_memory_offset
    k ← initialize_virtual_memory B G P L fuel flags active s.heap offset boot_info.memory_regions
    let s₁ : Kernel = record s { heap = k }
    init_framebuffer (kernel_heap B G P L fuel flags) rounds s₁ tree boot_info.framebuffer
