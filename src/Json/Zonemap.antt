-- ===== src/Json/Zonemap.antt =====
-- The zone map as JSON: `json_add_single_segment_extent_info` to `json_dump_data` of lib/libjson.c
-- (under zns-tools.fs/). An object is not changed any more once it is part of another, so it is a
-- value.
pub mod Lost
use zns_tools.Base.{
  ℕ, zero, suc, ◌+◌, ◌-◌, ◌/◌, ◌%◌, ◌^◌, bit_and, Bool, true, false, not, Option, none, some, List,
  [], ◌∷◌, Text, codes, ltb, leb, ◌==◌, if◌then◌else◌, trunc32, add32, add64, sub64, shl64, shr,
}
use zns_tools.Types.{Extent, Zone, Control, Run, returned, exited, faulted, ◌>>=◌}
use zns_tools.Device.{Kernel, f2fs_magic}
use zns_tools.Fiemap.{zonemap_of}
use zns_tools.Segments.{segment_of, extent_end}
use zns_tools.Segments.Split.{is_in_one_segment}
use zns_tools.Segments.Report.{start_lba_of, end_lba_of}
use zns_tools.Json.Strings.{uint32_to_string_cast}
use zns_tools.Json.Objects.{
  JsonC, add_all, hex64, init_json_file, json_get_zone_info, json_get_segment_info,
  json_get_extent_info, json_get_beginning_segment_extent_info, extent_object,
}

-- The locals of `json_dump_f2fs_zonemap` that its loops change, with `ctrl`.
pub record Builder (J : Type 0) : Type 0 where
  pub ctrl : Control
  pub curseg : J
  pub curseg_extents : J
  pub curseg_id : ℕ
  pub current_zone : ℕ
  pub zone_segments : J

module _ {J : Type 0} (j : JsonC J) where
  abbrev pub ext_info : J → J
  ext_info info = j.object_add j.new_object (codes "ext_info") info

  -- The extent as the one member of a segment's object.
  pub json_add_single_segment_extent_info : Control → Extent → ℕ → J → Run J
  json_add_single_segment_extent_info c e segment_start root = do
    seg_info ← json_get_segment_info j c e.fs_info segment_start
    info ← json_get_extent_info j c e
    returned (
        j.object_add root (uint32_to_string_cast (trunc32 segment_start)) (
          add_all j j.new_object (
            (codes "seg_info", seg_info)
            ∷ (codes "extents", j.array_add j.new_array (ext_info info))
            ∷ [])))

  -- `n` rounds of the loop; each adds the same segment.
  abbrev pub add_rounds : ℕ → Control → Extent → ℕ → J → Run J
  add_rounds zero c e segment_start root = returned root
  add_rounds (suc n) c e segment_start root = do
    root' ← json_add_single_segment_extent_info c e segment_start root
    add_rounds n c e segment_start root'

  -- How often `cur`, in steps of a segment's sectors, is below the end.
  abbrev pub rounds : Control → ℕ → ℕ → ℕ
  rounds c from to = (to - from + (c.f2fs_segment_sectors - 1)) / c.f2fs_segment_sectors

  pub json_add_consecutive_segments_extent_info : Control → Extent → ℕ → J → Run J
  json_add_consecutive_segments_extent_info c e segment_start root =
      let segment_end = segment_of c (extent_end e) in
      if sub64 segment_end segment_start == 1
      then json_add_single_segment_extent_info c e segment_start root
      else add_rounds (rounds c (trunc32 segment_start) (sub64 segment_end 1)) c e segment_start
          root

  -- The object goes into the array without a key.
  pub json_add_remainder_segment_extent_info : Control → Extent → J → Run J
  json_add_remainder_segment_extent_info c e root = do
    let start = shl64 (segment_of c (extent_end e)) c.segment_shift
    let remainder = sub64 (extent_end e) start
    info ← extent_object j c e start (add64 start remainder) remainder
    returned (j.array_add root info)

  -- An extent in another segment: what was collected goes into the zone, under the new number.
  pub enter_segment : Builder J → Extent → ℕ → Run (Builder J)
  enter_segment b e segment_id = if b.curseg_id == segment_id then returned b else (do
    let done = j.object_add b.curseg (codes "extents") b.curseg_extents
    let segments =
        if ltb 0 (j.array_length b.curseg_extents)
        then j.object_add b.zone_segments (uint32_to_string_cast (trunc32 segment_id)) done
        else b.zone_segments
    seg_info ← json_get_segment_info j b.ctrl e.fs_info segment_id
    returned (record b {
      zone_segments = segments;
      curseg = j.object_add j.new_object (codes "seg_info") seg_info;
      curseg_extents = j.new_array;
      curseg_id = trunc32 segment_id;
    }))

  -- An extent that stays in its segment; both branches add it.
  pub add_in_segment : Builder J → Extent → ℕ → Run (Builder J)
  add_in_segment b e segment_id = do
    info ← json_get_extent_info j b.ctrl e
    returned (record b {
      curseg_extents = j.array_add b.curseg_extents (ext_info info);
      ctrl = record b.ctrl { cur_segment = segment_id };
    })

  -- Part 1; the number that follows is that of the next segment.
  pub add_beginning : Builder J → Extent → ℕ → Run (Builder J × ℕ)
  add_beginning b e segment_id =
      if e.phy_blk == bit_and e.phy_blk b.ctrl.f2fs_segment_mask
      then returned (b, segment_id)
      else (do
        info ← json_get_beginning_segment_extent_info j b.ctrl e
        returned (
          record b { curseg_extents = j.array_add b.curseg_extents (ext_info info) },
          add64 segment_id 1,
        ))

  -- Parts 2 and 3.
  pub add_rest : Builder J → Extent → ℕ → Run (Builder J)
  add_rest b e segment_id = do
    let c = b.ctrl
    let segment_start = bit_and e.phy_blk c.f2fs_segment_mask
    let segment_end = bit_and (extent_end e) c.f2fs_segment_mask
    segments ←
        (if ltb 1 (shr (sub64 segment_end segment_start) c.segment_shift)
          then json_add_consecutive_segments_extent_info c e segment_id b.zone_segments
          else returned b.zone_segments)
    extents ←
        (if segment_end == extent_end e
          then returned b.curseg_extents
          else json_add_remainder_segment_extent_info c e b.curseg_extents)
    returned (record b { zone_segments = segments; curseg_extents = extents })

  -- One round of the inner loop, behind its tests.
  pub add_node : Builder J → Extent → Run (Builder J)
  add_node b e = do
    let segment_id = segment_of b.ctrl e.phy_blk
    b₁ ← enter_segment (record b { current_zone = e.zone }) e segment_id
    (if is_in_one_segment b₁.ctrl e
        then add_in_segment b₁ e segment_id
        else (do (b₂, next_id) ← add_beginning b₁ e segment_id; add_rest b₂ e next_id))

  -- The inner loop, on fuel, `none` out of fuel; `continue` stays at the same node.
  pub add_nodes : ℕ → ℕ → ℕ → List Extent → Builder J → Option (Run (Builder J))
  add_nodes zero start_lba end_lba es b = none
  add_nodes (suc fuel) start_lba end_lba [] b = some (returned b)
  add_nodes (suc fuel) start_lba end_lba (e ∷ es) b =
      let lba = shl64 (segment_of b.ctrl e.phy_blk) b.ctrl.segment_shift in
      elim (leb end_lba lba) [
        | true ↦ some (returned b)
        | false ↦ elim (ltb lba start_lba) [
          | true ↦ add_nodes fuel start_lba end_lba (e ∷ es) b
          | false ↦ elim (add_node b e) [
            | exited ↦ some exited
            | faulted ↦ some faulted
            | returned b' ↦ add_nodes fuel start_lba end_lba es b'
          ]
        ]
      ]

  -- The object of a zone, under its number.
  pub add_zone : Kernel → Builder J → J → Run J
  add_zone k b zonemap = do
    info ← json_get_zone_info j k b.ctrl b.current_zone
    returned (
        j.object_add zonemap (uint32_to_string_cast b.current_zone) (
          add_all j j.new_object
            ((codes "zone_info", info) ∷ (codes "segments", b.zone_segments) ∷ [])))

  -- The outer loop; each zone has the same fuel.
  pub add_zones : Kernel → ℕ → ℕ → ℕ → List Zone → Builder J → J → Option (Run J)
  add_zones k fuel start_lba end_lba [] b zonemap = some (returned zonemap)
  add_zones k fuel start_lba end_lba (z ∷ zs) b zonemap = elim (z.extent_ctr == 0) [
    | true ↦ add_zones k fuel start_lba end_lba zs b zonemap
    | false ↦
        elim (add_nodes fuel start_lba end_lba z.extents
          (record b { zone_segments = j.new_object })) [
            | none ↦ none
            | some exited ↦ some exited
            | some faulted ↦ some faulted
            | some (returned b') ↦ elim (add_zone k b' zonemap) [
              | exited ↦ some exited
              | faulted ↦ some faulted
              | returned zonemap' ↦ add_zones k fuel start_lba end_lba zs b' zonemap'
            ]
          ]
  ]

  abbrev pub first_builder : Control → Builder J
  first_builder c = record {
    ctrl = c;
    curseg = j.new_object;
    curseg_extents = j.new_array;
    curseg_id = 0;
    current_zone = 0;
    zone_segments = j.new_object;
  }

  -- The object under "zonemap".
  pub json_dump_f2fs_zonemap : Kernel → ℕ → Control → Option (Run J)
  json_dump_f2fs_zonemap k fuel c = elim c.zonemap [
    | none ↦ some faulted
    | some m ↦
        add_zones k fuel (start_lba_of k c) (end_lba_of k c) m.zones (first_builder c) j.new_object
  ]

  abbrev with_zonemap : J → Option (Run J) → Option (Run J)
  with_zonemap root none = none
  with_zonemap root (some exited) = some exited
  with_zonemap root (some faulted) = some faulted
  with_zonemap root (some (returned zonemap)) =
      some (returned (j.object_add root (codes "zonemap") zonemap))

  -- The root object as it is written to the file, for a program name and a time.
  pub json_dump_data : Kernel → ℕ → Text → ℕ → Control → Option (Run J)
  json_dump_data k fuel program time c =
      let root = init_json_file j program time c in
      if c.fs_magic == f2fs_magic
      then with_zonemap root (json_dump_f2fs_zonemap k fuel c)
      else some (returned root)
