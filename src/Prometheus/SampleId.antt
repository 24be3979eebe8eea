-- ===== src/Prometheus/SampleId.antt =====
-- `CreateSampleID` (prometheus.go): the id of a sample, from its tags.
use Prim.Native.String.{◌++◌}
use mathlib.Core.List.{Perm}
use mathlib.Core.List.Perm
use goppstats.Prelude.{String, List, [], ◌∷◌, map, ◌≡◌, ap}
use goppstats.Prelude.Dict.{Dict}
use goppstats.Prelude.Order.{sort, text_ord, sort-perm}

-- `strings.Join(pairs, ",")`
unfoldable pub join : List String → String
join [] = ""
join (x ∷ []) = x
join (x ∷ y ∷ rest) = x ++ "," ++ join (y ∷ rest)

-- `fmt.Sprintf("%s=%s", k, v)`
abbrev pair_text : String × String → String
pair_text (k, v) = k ++ "=" ++ v

-- The order of the entries stands for the order in which `range` visits the map.
unfoldable pub create_sample_id : Dict String String → String
unfolding join
create_sample_id tags = join (sort (map pair_text tags))

-- The id does not depend on the order in which the map of tags is visited.
pub create_sample_id-perm :
    (tags tags' : Dict String String)
    → Perm tags tags'
    → create_sample_id tags ≡ create_sample_id tags'
unfolding create_sample_id
create_sample_id-perm tags tags' p = ap join (sort-perm (Perm.map pair_text p))
