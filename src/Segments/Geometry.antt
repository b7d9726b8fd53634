-- ===== src/Segments/Geometry.antt =====
-- Addresses and segments under the mask and the shift of the control block.
use native.Mathlib.Nat.{
  mod-eq_of_lt, mul-div_cancel, div-mul-le_self, lt-div-mul-add, add-mul, mul-le-mul_right,
}
use zns_tools.Base.{
  ℕ, ◌+◌, ◌-◌, ◌*◌, ◌/◌, ◌^◌, ◌≤◌, ◌<◌, ◌≡◌, sym, ap, ◌∙◌, bit_and, arith, shl64, shr, two_pow_pos,
  bit_and-high_bits_lt,
}
use zns_tools.Types.{Control}
use zns_tools.Device.{segment_bytes}
use zns_tools.Segments.{segment_of}

-- Segments have 2 ^ k sectors, and the mask and the shift say so.
pub record IsGeometry (c : Control) (k : ℕ) : Type 0 where
  pub small : k ≤ 64
  pub mask : c.f2fs_segment_mask ≡ 2 ^ 64 - 2 ^ k
  pub shift : c.segment_shift ≡ k
  pub sectors : c.f2fs_segment_sectors ≡ 2 ^ k
  pub bytes : shr segment_bytes c.sector_shift ≡ 2 ^ k

-- The start of a segment.
abbrev pub start_of : ℕ → ℕ → ℕ
start_of k s = s * 2 ^ k

module _ (c : Control) (k : ℕ) (g : IsGeometry c k) where
  pub mask-start_of : (x : ℕ) → x < 2 ^ 64 → bit_and x c.f2fs_segment_mask ≡ start_of k (x / 2 ^ k)
  mask-start_of x h = rw g.mask (bit_and-high_bits_lt 64 k x g.small h)

  -- The number of an address's segment is the address over the segment size.
  pub segment_of_lem : (x : ℕ) → x < 2 ^ 64 → segment_of c x ≡ x / 2 ^ k
  segment_of_lem x h =
      ap (λ t. shr t c.segment_shift) (mask-start_of x h)
      ∙ ap (λ s. shr (start_of k (x / 2 ^ k)) s) g.shift
      ∙ mul-div_cancel (x / 2 ^ k) (two_pow_pos k)

  pub shl-start_of : (s : ℕ) → start_of k s < 2 ^ 64 → shl64 s c.segment_shift ≡ start_of k s
  shl-start_of s h = ap (λ t. shl64 s t) g.shift ∙ mod-eq_of_lt h

pub start_of-le : (k x : ℕ) → start_of k (x / 2 ^ k) ≤ x
start_of-le k x = div-mul-le_self x (2 ^ k)

pub below-start_of : (k x : ℕ) → x < start_of k (x / 2 ^ k) + 2 ^ k
below-start_of k x = lt-div-mul-add (two_pow_pos k)

pub start_of-suc : (k s : ℕ) → start_of k (s + 1) ≡ start_of k s + 2 ^ k
start_of-suc k s = omega (arith, add-mul s 1 (2 ^ k))

pub start_of-next : (k s t : ℕ) → s < t → start_of k s + 2 ^ k ≤ start_of k t
start_of-next k s t h =
    omega (arith, start_of-suc k s, mul-le-mul_right {m = s + 1} {n = t} (2 ^ k) (omega arith))

pub start_of-sub : (k s t : ℕ) → s ≤ t → (t - s) * 2 ^ k ≡ start_of k t - start_of k s
start_of-sub k s t h =
    let d : t ≡ s + (t - s) = omega arith in
    omega (arith, add-mul s (t - s) (2 ^ k), ap (start_of k) d)

pub start_of-diff : (k s t : ℕ) → s ≤ t → (start_of k t - start_of k s) / 2 ^ k ≡ t - s
start_of-diff k s t h =
    ap (λ (n : ℕ). n / 2 ^ k) (sym (start_of-sub k s t h)) ∙ mul-div_cancel (t - s) (two_pow_pos k)
