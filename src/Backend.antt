-- ===== src/Backend.antt =====
-- The names shared by the backends (backend.go).
pub mod Fields
pub mod Exports
pub mod Tags
use goppstats.Prelude.{String, List, [], ◌∷◌, Bool, ◌||◌, ◌==◌, string_eq}

abbrev pub f_bytes_in : String
f_bytes_in = "bytes_in"

abbrev pub f_bytes_out : String
f_bytes_out = "bytes_out"

abbrev pub f_reads : String
f_reads = "reads"

abbrev pub f_writes : String
f_writes = "writes"

abbrev pub f_ops : String
f_ops = "ops"

abbrev pub f_l2 : String
f_l2 = "l2"

abbrev pub f_l3 : String
f_l3 = "l3"

abbrev pub f_cpu : String
f_cpu = "cpu"

abbrev pub f_lat_read : String
f_lat_read = "latency_read"

abbrev pub f_lat_write : String
f_lat_write = "latency_write"

abbrev pub f_lat_other : String
f_lat_other = "latency_other"

-- The statistics that every dataset collects.
abbrev pub pp_fixed_fields : List String
pp_fixed_fields =
    f_bytes_in ∷ f_bytes_out ∷ f_reads ∷ f_writes ∷ f_ops ∷ f_l2 ∷ f_l3 ∷ f_cpu ∷ f_lat_read
    ∷ f_lat_write ∷ f_lat_other ∷ []

abbrev pub w_additional : String
w_additional = "Additional"

abbrev pub w_excluded : String
w_excluded = "Excluded"

abbrev pub w_overaccounted : String
w_overaccounted = "Overaccounted"

abbrev pub w_system : String
w_system = "System"

abbrev pub w_unknown : String
w_unknown = "Unknown"

abbrev pub w_pinned : String
w_pinned = "Pinned"

-- The five overflow buckets of a dataset.
abbrev pub workload_types : List String
workload_types = w_additional ∷ w_excluded ∷ w_overaccounted ∷ w_system ∷ w_unknown ∷ []

unfoldable pub is_valid_workload_type : String → Bool
is_valid_workload_type t =
    t == w_additional || t == w_excluded || t == w_overaccounted || t == w_system || t == w_unknown
