-- ===== src/Backend/Fields.antt =====
-- `fieldsForPPStat` (backend.go): the measured values of a result, by field name.
use goppstats.Prelude.{String, [], Option, none, some, string_eq}
use goppstats.Prelude.Dict.{Dict, insert}
use goppstats.Api.Types.{PpStatResult}
use goppstats.Backend.{
  f_bytes_in, f_bytes_out, f_reads, f_writes, f_ops, f_l2, f_l3, f_cpu, f_lat_read, f_lat_write,
  f_lat_other,
}

-- A value of Go's `any`, as far as the program stores one.
pub data Any (Float64 : Type 0) : Type 0 where
  float64 : Float64 → Any Float64
  text : String → Any Float64

abbrev pub PtFields : Type 0 → Type 0
PtFields Float64 = Dict String (Any Float64)

-- The type assertion `v.(float64)` on what a map returns; a missing key gives a nil `any`.
unfoldable pub as_float64 : {Float64 : Type 0} → Option (Any Float64) → Option Float64
as_float64 none = none
as_float64 (some (float64 x)) = some x
as_float64 (some (text _)) = none

unfoldable pub fields_for_pp_stat : {Float64 : Type 0} → PpStatResult Float64 → PtFields Float64
fields_for_pp_stat s = insert f_lat_other (float64 s.latency_other) (
    insert f_lat_write (float64 s.latency_write) (
      insert f_lat_read (float64 s.latency_read) (
        insert f_cpu (float64 s.cpu) (
          insert f_l3 (float64 s.l3) (
            insert f_l2 (float64 s.l2) (
              insert f_ops (float64 s.ops) (
                insert f_writes (float64 s.writes) (
                  insert f_reads (float64 s.reads) (
                    insert f_bytes_out (float64 s.bytes_out)
                      (insert f_bytes_in (float64 s.bytes_in) []))))))))))
