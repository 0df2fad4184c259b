-- ===== src/Settings/Sampling.antt =====
-- src/settings.c: the range of hash values that is selected, as -m, -M and -r set it. What these
-- functions return is used by nothing. strtoll's result is an argument here.
use impd4e.Common.{
  arith, ℕ, ◌+◌, ◌-◌, ◌^◌, ◌≤◌, ◌<◌, ◌≡◌, ◌⊎◌, ltb, if◌then◌else◌, ◌+₃₂◌, ℤ, pos, negsuc,
}
use impd4e.Device.{Options}

abbrev pub uint32_max : ℕ
uint32_max = 2 ^ 32 - 1

-- The value of strtoll, brought into the range of a uint32_t.
clamp : ℤ → ℕ
clamp (pos n) = if ltb uint32_max n then uint32_max else n
clamp (negsuc n) = 0

unfoldable pub set_sampling_lowerbound : ℤ → Options → Options
unfolding clamp
set_sampling_lowerbound value options =
    let lower = clamp value in
    if ltb options.sel_range_max lower
    then record options { sel_range_min = lower; sel_range_max = lower }
    else record options { sel_range_min = lower }

unfoldable pub set_sampling_upperbound : ℤ → Options → Options
unfolding clamp
set_sampling_upperbound value options =
    let upper = clamp value in
    if ltb upper options.sel_range_min
    then record options { sel_range_min = upper; sel_range_max = upper }
    else record options { sel_range_max = upper }

abbrev first_slice : ℕ
first_slice = 0x1999_9999

-- `share` is the uint32_t that `(double) UINT32_MAX / 100 * sampling_ratio` is converted to.
unfoldable pub set_sampling_ratio : ℕ → Options → Options
set_sampling_ratio share options =
    if ltb first_slice (uint32_max - share)
    then record options { sel_range_min = first_slice; sel_range_max = share +₃₂ first_slice }
    else record options { sel_range_min = uint32_max - share; sel_range_max = uint32_max }

-- A range of uint32_t values with its borders in order.
abbrev pub IsRange : Options → Type 0
IsRange options = (options.sel_range_min ≤ options.sel_range_max) × (options.sel_range_max < 2 ^ 32)

pub set_sampling_lowerbound-IsRange :
    (value : ℤ) (options : Options)
    → IsRange options
    → IsRange (set_sampling_lowerbound value options)
unfolding set_sampling_lowerbound clamp
set_sampling_lowerbound-IsRange (pos n) options h = ground arith
set_sampling_lowerbound-IsRange (negsuc n) options h = ground arith

pub set_sampling_upperbound-IsRange :
    (value : ℤ) (options : Options)
    → IsRange options
    → IsRange (set_sampling_upperbound value options)
unfolding set_sampling_upperbound clamp
set_sampling_upperbound-IsRange (pos n) options h = ground arith
set_sampling_upperbound-IsRange (negsuc n) options h = ground arith

-- Whatever the share, a uint32_t, of the hash values that a sampling ratio asks for, the range that is set is
-- one of uint32_t values with its borders in order, it is exactly that wide, and it keeps out of
-- the first tenth of the values unless the share is more than the rest holds.
pub set_sampling_ratio-IsRange :
    (share : ℕ) (options : Options)
    → share < 2 ^ 32
    → let set = set_sampling_ratio share options in
      IsRange set
      × (set.sel_range_min + share ≡ set.sel_range_max)
      × ((uint32_max ≤ share + 0x1999_9999) ⊎ (set.sel_range_min ≡ 0x1999_9999))
unfolding set_sampling_ratio
set_sampling_ratio-IsRange share options h = ground arith
