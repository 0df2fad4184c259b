-- ===== src/Tests/Settings.antt =====
-- Command lines and sampling ratios.
use impd4e.Config.Commands.{codes}
use impd4e.Common.{◌>>=◌, List, List, [], ◌∷◌, ◌≡◌, ◌⊎◌, ◌+◌, ◌≤◌, arith}
use impd4e.Device.{default_options}
use impd4e.Range.{Text}
use impd4e.Settings.Sampling.{IsRange, set_sampling_ratio, set_sampling_ratio-IsRange, uint32_max}

set_sampling_ratio-IsRange_example :
    IsRange (set_sampling_ratio 100 default_options)
    × ((set_sampling_ratio 100 default_options).sel_range_min + 100
        ≡ (set_sampling_ratio 100 default_options).sel_range_max)
    × ((uint32_max ≤ 100 + 0x1999_9999)
        ⊎ ((set_sampling_ratio 100 default_options).sel_range_min ≡ 0x1999_9999))
set_sampling_ratio-IsRange_example = set_sampling_ratio-IsRange 100 default_options (omega arith)

abbrev config_lines : List Text
config_lines =
    codes "[Selection]" ∷ codes "hash_function = BOB # the default" ∷ codes "other = 1" ∷ []
