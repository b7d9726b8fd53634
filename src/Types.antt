-- ===== src/Types.antt =====
-- The data of include/zns-tools.h and include/f2fs.h (under zns-tools.fs/): the control block, the
-- devices, the zone map with its extents, and the per-file counters.
use zns_tools.Base.{ℕ, Bool, Option, List, Text, ◌≡◌, refl, ◌⊎◌, inl, inr}

-- `struct segment_info`; `type` holds the number of an `enum type`, as `atoi` stored it.
pub record SegmentInfo : Type 0 where
  pub id : ℕ
  pub type : ℕ
  pub valid_blocks : ℕ

-- `enum type`
abbrev pub curseg_hot_data : ℕ
curseg_hot_data = 0

abbrev pub curseg_warm_data : ℕ
curseg_warm_data = 1

abbrev pub curseg_cold_data : ℕ
curseg_cold_data = 2

abbrev pub curseg_hot_node : ℕ
curseg_hot_node = 3

abbrev pub curseg_warm_node : ℕ
curseg_warm_node = 4

abbrev pub curseg_cold_node : ℕ
curseg_cold_node = 5

-- `struct extent`
pub record Extent : Type 0 where
  pub zone : ℕ
  pub flags : ℕ
  pub ext_nr : ℕ
  pub file_id : ℕ
  pub logical_blk : ℕ
  pub phy_blk : ℕ
  pub zone_lbas : ℕ
  pub zone_cap : ℕ
  pub len : ℕ
  pub zone_size : ℕ
  pub zone_wp : ℕ
  pub zone_lbae : ℕ
  pub fs_info : Option SegmentInfo
  pub file : Text

-- `struct zone`; `extents_head` and the nodes behind it are the list `extents`.
pub record Zone : Type 0 where
  pub zone_number : ℕ
  pub start : ℕ
  pub end : ℕ
  pub capacity : ℕ
  pub wp : ℕ
  pub state : ℕ
  pub mask : ℕ
  pub extent_ctr : ℕ
  pub extents : List Extent

-- `struct zone_map`
pub record ZoneMap : Type 0 where
  pub nr_zones : ℕ
  pub extent_ctr : ℕ
  pub cum_extent_size : ℕ
  pub zone_ctr : ℕ
  pub zones : List Zone

-- `struct file_counter`
pub record FileCounter : Type 0 where
  pub file : Text
  pub ext_ctr : ℕ
  pub segment_ctr : ℕ
  pub zone_ctr : ℕ
  pub cold_ctr : ℕ
  pub warm_ctr : ℕ
  pub hot_ctr : ℕ
  pub last_segment_id : ℕ
  pub last_zone : ℕ

-- `struct file_counter_map`: the entries in use, and the number of entries allocated.
pub record FileCounterMap : Type 0 where
  pub files : List FileCounter
  pub allocated : ℕ

-- `struct bdev`
pub record Bdev : Type 0 where
  pub dev_name : Text
  pub dev_path : Text
  pub link_name : Text
  pub is_zoned : Bool
  pub nr_zones : ℕ
  pub zone_size : ℕ
  pub zone_mask : ℕ

-- `struct control`, without what only zns.fpbench reads and without the function pointers, which
-- are the functions of libf2fs.c wherever `fs_info_bytes` is not zero.
pub record Control : Type 0 where
  pub bdev : Bdev
  pub znsdev : Bdev
  pub multi_dev : Bool
  pub log_level : ℕ
  pub show_holes : Bool
  pub show_flags : Bool
  pub json_dump : Bool
  pub fs_magic : ℕ
  pub sector_size : ℕ
  pub sector_shift : ℕ
  pub zns_sector_shift : ℕ
  pub f2fs_segment_sectors : ℕ
  pub f2fs_segment_mask : ℕ
  pub segment_shift : ℕ
  pub start_zone : ℕ
  pub end_zone : ℕ
  pub nr_files : ℕ
  pub exclude_flags : ℕ
  pub offset : ℕ
  pub cur_segment : ℕ
  pub show_superblock : Bool
  pub show_checkpoint : Bool
  pub procfs : Bool
  pub show_class_stats : Bool
  pub show_only_stats : Bool
  pub inlined_extent_ctr : ℕ
  pub fs_info_bytes : ℕ
  pub fs_manager : Option (List SegmentInfo)
  pub zonemap : Option ZoneMap
  pub file_counter_map : Option FileCounterMap

-- How a piece of the program ends: it returns, ERR_MSG ends the process, or it dereferences a null
-- pointer or reads past an array.
pub data Run {ℓ} (A : Type ℓ) : Type ℓ where
  returned : A → Run A
  exited : Run A
  faulted : Run A

infixl 5 ◌>>=◌ ◌>>◌
abbrev pub ◌>>=◌ {ℓ κ} : {A : Type ℓ} {B : Type κ} → Run A → (A → Run B) → Run B
returned a >>= f = f a
exited >>= f = exited
faulted >>= f = faulted

abbrev pub ◌>>◌ {ℓ} : {B : Type ℓ} → Run (Unit {0}) → Run B → Run B
m >> k = m >>= λ _. k

-- `if (bad) ERR_MSG(…)`
abbrev pub exit_if : Bool → Run (Unit {0})
exit_if Bool.true = exited
exit_if Bool.false = returned tt

pub Run-cases {ℓ} :
    {A : Type ℓ} (r : Run A) → ((a : A) × (r ≡ returned a)) ⊎ (r ≡ exited) ⊎ (r ≡ faulted)
Run-cases (returned a) = inl (a, refl)
Run-cases exited = inr (inl refl)
Run-cases faulted = inr (inr refl)

-- A sequence that returns is made of parts that return.
pub data Returns {ℓ κ} {A : Type ℓ} {B : Type κ} (m : Run A) (f : A → Run B) (b : B)
    : Type (ℓ ⊔ κ) where
  via : (a : A) → m ≡ returned a → f a ≡ returned b → Returns m f b

pub >>=-Returns {ℓ κ} :
    {A : Type ℓ} {B : Type κ} (m : Run A) (f : A → Run B) {b : B}
    → (m >>= f) ≡ returned b
    → Returns m f b
>>=-Returns (returned a) f h = via a refl h
>>=-Returns exited f h = cc
>>=-Returns faulted f h = cc

pub returned_inj {ℓ} : {A : Type ℓ} {a b : A} → returned a ≡ returned b → a ≡ b
returned_inj h = cc
