-- ===== src/Enclave/Terminate.antt =====
-- The end of an enclave: `terminate_enclave` and the drop of the handle.
use aws_nitro_enclaves_cli.Common.{◌≡◌, ◌≢◌, some, [], arith}
use aws_nitro_enclaves_cli.Common.Int.{negsuc}
use aws_nitro_enclaves_cli.Failure.{NitroCliErrorEnum, ok, err}
use aws_nitro_enclaves_cli.Memory.Allocator.{ResourceAllocator, free_allocator, free_regions}
use aws_nitro_enclaves_cli.Enclave.{
  Driver, World, cid_or_zero, clear, release_enclave_descriptor, free_memory, terminate_enclave,
  drop_allocator, drop_handle,
}

free_allocator-regions :
    (D : Driver) (a : ResourceAllocator) (k : D.State)
    → (free_allocator D.kernel a k).0 ≡ ok tt
    → (free_allocator D.kernel a k).1.mem_regions ≡ []
unfolding free_allocator
free_allocator-regions D a k h = ground arith

module _ (D : Driver) (w : World D) where
  -- A termination that succeeds, of an enclave with a CID other than 0, leaves the handle with no CPU,
  -- no memory, no descriptor, slot 0 and CID 0.
  terminate_enclave-ok :
      cid_or_zero w.handle.enclave_cid ≢ 0
      → (terminate_enclave D w).0 ≡ ok tt
      → ((terminate_enclave D w).1.handle.enclave_cid ≡ some 0)
        × ((terminate_enclave D w).1.handle.enc_fd ≡ negsuc 0)
        × ((terminate_enclave D w).1.handle.slot_uid ≡ 0)
        × ((terminate_enclave D w).1.handle.cpu_ids ≡ [])
        × ((terminate_enclave D w).1.handle.allocated_memory_mib ≡ 0)
        × ((terminate_enclave D w).1.handle.resource_allocator.mem_regions ≡ [])
  unfolding terminate_enclave free_memory clear
  terminate_enclave-ok owned h = ground (
    arith,
    free_allocator-regions D w.handle.resource_allocator
        (release_enclave_descriptor D w.handle.enc_fd w.sys).1,
  )

  -- After a termination that succeeded, a second one succeeds and changes neither the handle nor the
  -- system.
  terminate_enclave_again :
      (terminate_enclave D w).0 ≡ ok tt
      → terminate_enclave D (terminate_enclave D w).1 ≡ (ok tt, (terminate_enclave D w).1)
  unfolding terminate_enclave free_memory clear
  terminate_enclave_again h = ground arith

  -- After a termination that succeeded, of an enclave with a CID other than 0, the drop of the handle
  -- succeeds and makes no further call on the system.
  pub drop_handle-terminate_enclave :
      cid_or_zero w.handle.enclave_cid ≢ 0
      → (terminate_enclave D w).0 ≡ ok tt
      → drop_handle D (terminate_enclave D w).1 ≡ (ok tt, (terminate_enclave D w).1.sys)
  unfolding drop_handle drop_allocator free_allocator free_regions
  drop_handle-terminate_enclave owned h = ground (arith, terminate_enclave-ok owned h)

  -- When the descriptor of an enclave with a CID other than 0 cannot be closed, the termination fails
  -- with that error, and the handle keeps
  -- all that it holds.
  terminate_enclave-close_fails :
      (e : NitroCliErrorEnum)
      → cid_or_zero w.handle.enclave_cid ≢ 0
      → (release_enclave_descriptor D w.handle.enc_fd w.sys).0 ≡ err e
      → ((terminate_enclave D w).0 ≡ err e) × ((terminate_enclave D w).1.handle ≡ w.handle)
  unfolding terminate_enclave
  terminate_enclave-close_fails e owned h = ground arith
