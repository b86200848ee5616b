-- ===== src/Image/Tests.antt =====
-- An image of five bytes, written at offset 3 to regions of four and eight bytes.
use aws_nitro_enclaves_cli.Common.{refl, true, none, List, [], ◌∷◌, arith, All}
use aws_nitro_enclaves_cli.Image.{EifFile, Mapping, write_at, write_eif_to_regions}
use aws_nitro_enclaves_cli.Image.Round.{memory, capacity, IsBacked}
use aws_nitro_enclaves_cli.Image.Write.{Written, write_eif_to_regions-Written}

abbrev image : EifFile
image = record {
  content = 1 ∷ 2 ∷ 3 ∷ 4 ∷ 5 ∷ [];
  position = 2;
  metadata_ok = true;
  rewind_ok = true;
  fault = λ p. none;
}

abbrev two_regions : List Mapping
two_regions =
    record {
      region = record { flags = 0; mem_size = 4; mem_addr = 100 };
      bytes = 0 ∷ 0 ∷ 0 ∷ 0 ∷ [];
    }
    ∷ record {
      region = record { flags = 0; mem_size = 8; mem_addr = 200 };
      bytes = 0 ∷ 0 ∷ 0 ∷ 0 ∷ 0 ∷ 0 ∷ 0 ∷ 0 ∷ [];
    }
    ∷ []

two_regions-IsBacked : All IsBacked two_regions
two_regions-IsBacked = (refl, (refl, tt))

write_eif_to_regions-Written_example :
    Written
      (0 ∷ 0 ∷ 0 ∷ 1 ∷ 2 ∷ 3 ∷ 4 ∷ 5 ∷ 0 ∷ 0 ∷ 0 ∷ 0 ∷ [])
      two_regions
      (write_eif_to_regions image two_regions 3)
unfolding write_at memory capacity
write_eif_to_regions-Written_example =
    write_eif_to_regions-Written image two_regions 3 refl refl (λ p. refl) two_regions-IsBacked
      (omega arith) (omega arith)
