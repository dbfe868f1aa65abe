-- ===== src/Storage/Regions.antt =====
-- The disk's region map and its two superblocks (compiler/storagefmt/format.go).
pub mod Valid
use Prim.Native.String.{String}
use wrela.Prelude.{
  ℕ, ◌+◌, ◌*◌, Bool, true, false, ◌&&◌, ◌||◌, List, [], ◌∷◌, Option, none, some, ◌==◌, ltb,
  if◌then◌else◌, add64,
}
use wrela.Prelude.Sorting.{sort_by}
use wrela.Bytes.{le_bytes, crc32c}

abbrev pub storage_disk_bytes : ℕ
storage_disk_bytes = 4294967296

pub record Region : Type 0 where
  pub name : String
  pub offset : ℕ
  pub size : ℕ

abbrev pub offset_of : Region → ℕ
offset_of r = r.offset

-- The loop of `ValidateRegions` over the ordered regions; `true` is the nil error and `false` is
-- `ErrRegionOverlap`.
unfoldable pub validate_ordered : ℕ → List Region → Bool
validate_ordered prev_end [] = true
validate_ordered prev_end (r ∷ rs) =
    let end = add64 r.offset r.size in
    let rest = validate_ordered end rs in
    if r.size == 0 || ltb r.offset prev_end
    then false
    else if ltb end r.offset || ltb storage_disk_bytes end
    then false
    else rest

-- `ValidateRegions`
unfoldable pub validate_regions : List Region → Bool
unfolding sort_by validate_ordered
validate_regions regions = validate_ordered 0 (sort_by offset_of regions)

-- `DefaultRegions`
abbrev pub default_regions : List Region
default_regions =
    record { name = "superblock copies"; offset = 0; size = 8192 }
    ∷ record { name = "region map"; offset = 8192; size = 1048576 }
    ∷ record { name = "hot event slot region"; offset = 1056768; size = 536870912 }
    ∷ record { name = "segment map"; offset = 537927680; size = 67108864 }
    ∷ record { name = "sealed segment extents"; offset = 605036544; size = 536870912 }
    ∷ record { name = "stream directory and cache chunks"; offset = 1141907456; size = 268435456 }
    ∷ record { name = "blob extents"; offset = 1410342912; size = 1610612736 }
    ∷ record { name = "blob manifests and key metadata"; offset = 3020955648; size = 268435456 }
    ∷ record { name = "projection storage"; offset = 3289391104; size = 536870912 }
    ∷ record { name = "maintenance metadata"; offset = 3826262016; size = 268435456 }
    ∷ record { name = "reserved tail"; offset = 4094697472; size = 72159232 }
    ∷ []
