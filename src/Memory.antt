-- ===== src/Memory.antt =====
-- src/enclave_proc/resource_manager.rs: the huge pages and `MemoryRegion`. The two system calls on
-- memory belong to the kernel, which is the parameter `Kernel`.
pub mod Sort
pub mod Allocator
pub mod Tests
use aws_nitro_enclaves_cli.Common.{
  ℕ, ◌*◌, Bool, true, false, Option, none, some, List, [], ◌∷◌, ◌==◌, if◌then◌else◌,
}
use aws_nitro_enclaves_cli.Failure.{
  NitroCliResult, ok, err, no_such_hugepage_flag, enclave_mmap_error, enclave_munmap_error,
  ok_or_exit_with_errno,
}

-- `mmap state length flag` is an anonymous private mapping of huge pages, `none` for `MAP_FAILED`;
-- `munmap state address length` tells whether the call succeeded. `map_huge n` is the flag of
-- libc for pages of 2 ^ n bytes.
pub record Kernel : Type 1 where
  pub State : Type 0
  pub map_huge : ℕ → ℕ
  pub mmap : State → ℕ → ℕ → Option ℕ × State
  pub munmap : State → ℕ → ℕ → Bool × State

abbrev pub kib : ℕ
kib = 1024

abbrev pub mib : ℕ
mib = 1024 * kib

abbrev pub gib : ℕ
gib = 1024 * mib

abbrev pub ne_default_memory_region : ℕ
ne_default_memory_region = 0

-- An entry of `HUGE_PAGE_MAP`: the allocation flag and the page size in bytes.
pub record HugePage : Type 0 where
  pub flag : ℕ
  pub size : ℕ

pub record MemoryRegion : Type 0 where
  pub flags : ℕ
  pub mem_size : ℕ
  pub mem_addr : ℕ

unfoldable pub new_with : ℕ → ℕ → ℕ → MemoryRegion
new_with flags mem_addr mem_size = record {
  flags = flags;
  mem_size = mem_size;
  mem_addr = mem_addr;
}

-- The size of the first entry with the given flag.
unfoldable pub page_size : ℕ → List HugePage → Option ℕ
page_size flag [] = none
page_size flag (page ∷ pages) = if page.flag == flag then some page.size else page_size flag pages

module _ (K : Kernel) where
  open K use {State, map_huge, mmap, munmap}

  -- In descending order of size.
  unfoldable pub huge_page_map : List HugePage
  huge_page_map =
      record { flag = map_huge 34; size = 16 * gib }
      ∷ record { flag = map_huge 31; size = 2 * gib }
      ∷ record { flag = map_huge 30; size = gib }
      ∷ record { flag = map_huge 29; size = 512 * mib }
      ∷ record { flag = map_huge 28; size = 256 * mib }
      ∷ record { flag = map_huge 25; size = 32 * mib }
      ∷ record { flag = map_huge 24; size = 16 * mib }
      ∷ record { flag = map_huge 23; size = 8 * mib }
      ∷ record { flag = map_huge 21; size = 2 * mib }
      ∷ []

  -- The answer of `mmap` for a page of `size` bytes.
  abbrev mapped : ℕ → Option ℕ × State → NitroCliResult MemoryRegion × State
  mapped size (none, k) = (err enclave_mmap_error, k)
  mapped size (some addr, k) =
      (ok (record { flags = ne_default_memory_region; mem_size = size; mem_addr = addr }), k)

  abbrev map_page : ℕ → Option ℕ → State → NitroCliResult MemoryRegion × State
  map_page flag none k = (err no_such_hugepage_flag, k)
  map_page flag (some size) k = mapped size (mmap k size flag)

  -- `MemoryRegion::new`
  unfoldable pub new : ℕ → State → NitroCliResult MemoryRegion × State
  new flag k = map_page flag (page_size flag huge_page_map) k

  -- The answer of `munmap` for `region`; its address and length become 0 against a double free.
  abbrev unmapped : MemoryRegion → Bool × State → NitroCliResult (Unit {0}) × MemoryRegion × State
  unmapped region (false, k) = (err enclave_munmap_error, region, k)
  unmapped region (true, k) = (ok tt, record region { mem_addr = 0; mem_size = 0 }, k)

  unfoldable pub free : MemoryRegion → State → NitroCliResult (Unit {0}) × MemoryRegion × State
  free region k =
      if region.mem_addr == 0
      then (ok tt, region, k)
      else unmapped region (munmap k region.mem_addr region.mem_size)

  -- A region that is dropped is freed, and a failure ends the process.
  unfoldable pub drop_region : MemoryRegion → State → NitroCliResult (Unit {0}) × State
  unfolding free
  drop_region region k = let (result, _, k') = free region k in (ok_or_exit_with_errno result, k')
