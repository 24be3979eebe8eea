-- ===== src/Backend/Exports.antt =====
-- The map of NFS export ids to paths (`exportMap` of backend.go), and what the backends need of the
-- cluster to fill it.
use goppstats.Prelude.{String, [], Bool}
use goppstats.Prelude.Int.{ℤ}
use goppstats.Prelude.Result.{Result}
use goppstats.Prelude.Dict.{Dict}

-- `pathByID` is nil while lookups are disabled; nothing writes to it then.
pub record ExportMap : Type 0 where
  pub enabled : Bool
  pub path_by_id : Dict ℤ String

unfoldable pub new_export_map : Bool → ExportMap
new_export_map enabled = record { enabled = enabled; path_by_id = [] }

-- `Cluster.GetExportPathByID` as its callers see it: an answer, and the new state of the client and
-- of the cluster behind it.
pub record ExportApi (W : Type 0) : Type 0 where
  pub get_export_path_by_id : ℤ → W → Result String × W
