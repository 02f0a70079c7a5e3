-- ===== src/Release/Examples.antt =====
-- Runs of internal/selfupdate/release.go.
use xdev.Prelude.{◌≡◌, refl, true, false, Text, codes}
use xdev.Release.{Comparison, newer, compare_versions}
use xdev.Release.Tags.{Ordered, tag, compare_versions-Ordered}

abbrev first_tag : Text
first_tag = codes "v1.9.0"

abbrev second_tag : Text
second_tag = codes "1.10.0 (abc)"

first_newer : compare_versions first_tag second_tag ≡ newer
unfolding compare_versions xdev.Release.compare_parsed xdev.Release.parse_version
    xdev.Release.three_parts xdev.Prelude.split xdev.Release.trim_v xdev.Release.first_field
    xdev.Prelude.trim_space xdev.Release.part xdev.Release.non_negative xdev.Prelude.Atoi.atoi
    xdev.Release.compare_parts
first_newer = refl

compare_versions-Ordered_example :
    Ordered (compare_versions (tag true (1, 9, 0)) (tag false (1, 10, 0))) (1, 9, 0) (1, 10, 0)
compare_versions-Ordered_example = compare_versions-Ordered true false 1 9 0 1 10 0 refl refl
