-- ===== src/Api/Client/Queries.antt =====
-- The API calls: `GetClusterConfig`, `Connect`, `GetDataSetInfo`, `GetExportPathByID` and `GetPPStats`.
pub mod Laws
pub mod Connected
use Prim.Native.String.{◌++◌}
use goppstats.Prelude.{String, List, Option, none, some, true, ◌==◌, string_eq, if◌then◌else◌}
use goppstats.Prelude.Int.{ℤ}
use goppstats.Prelude.Format.{itoa}
use goppstats.Prelude.Result.{Result, ok, err, message, wrapped, ◌>>=◌}
use goppstats.Api.Types.{DsInfo, PpStatResult}
use goppstats.Api.Json.{
  Json, null, truth, falsity, num, str, arr, obj, get, as_object, as_string, first_item,
}
use goppstats.Api.Client.{
  Cluster, Net, authtype_session, config_path, ds_path, pp_workload_path, export_path,
}
use goppstats.Api.Client.Session.{initialize, authenticate}
use goppstats.Api.Client.Get.{rest_get}
use goppstats.Backend.Exports.{ExportApi}

-- `v, ok := …; if !ok { return error }`
abbrev pub or_error : {A : Type 0} → Option A → String → Result A
or_error (some a) text = ok a
or_error none text = err (message text)

-- `null` is decoded to `nil`.
abbrev pub not_null : {Float64 : Type 0} → Option (Json Float64) → Option (Json Float64)
not_null none = none
not_null (some null) = none
not_null (some truth) = some truth
not_null (some falsity) = some falsity
not_null (some (num x)) = some (num x)
not_null (some (str s)) = some (str s)
not_null (some (arr items)) = some (arr items)
not_null (some (obj fields)) = some (obj fields)

module _ {Float64 : Type 0} where
  unfoldable pub path_of_export : ℤ → Json Float64 → Result String
  path_of_export id v = do
    ea1 ← or_error (as_object (some v)) ("unexpected JSON structure for export " ++ itoa id)
    export ←
        or_error (first_item (get "exports" ea1))
          ("unexpected type or empty exports field for export " ++ itoa id)
    fields ← or_error (as_object (some export)) ("unexpected type for export entry " ++ itoa id)
    paths ← or_error (not_null (get "paths" fields)) ("no paths found for export id " ++ itoa id)
    path ←
        or_error (first_item (some paths))
          ("unexpected type or empty paths for export id " ++ itoa id)
    or_error (as_string (some path)) ("unexpected type for path entry in export id " ++ itoa id)

  -- The cluster with its version, and with its name if that is there too.
  unfoldable pub apply_config : (String → String) → Cluster → Json Float64 → Result Unit × Cluster
  apply_config to_lower c v = elim (as_object (some v)) [
    | none ↦ (err (message "unexpected JSON structure for cluster config"), c)
    | some m ↦ elim (as_object (get "onefs_version" m)) [
      | none ↦ (err (message "unexpected type for onefs_version field"), c)
      | some version ↦ elim (as_string (get "version" version)) [
        | none ↦ (err (message "unexpected type for version field"), c)
        | some rel ↦
            let c' : Cluster = record c { os_version = rel } in
            elim (as_string (get "name" m)) [
              | none ↦ (err (message "unexpected type for name field"), c')
              | some name ↦ (
                ok tt,
                record c' { cluster_name = if c.preserve_case then name else to_lower name },
              )
            ]
      ]
    ]
  ]

module _ {Float64 W : Type 0} (net : Net Float64 W) where
  unfoldable pub get_cluster_config : Cluster → W → Result Unit × Cluster × W
  unfolding apply_config
  get_cluster_config c w =
      let (r, c', w') = rest_get net c config_path w in
      elim (r >>= net.unmarshal) [
        | err e ↦ (err e, c', w')
        | ok v ↦ let (result, c'') = apply_config net.to_lower c' v in (result, c'', w')
      ]

  -- `fmt.Errorf("…: %w", err)` around a failed step
  unfoldable pub wrap_error : String → Result Unit → Result Unit
  wrap_error text (ok t) = ok t
  wrap_error text (err e) = err (wrapped text e)

  -- The session of `Connect`, for session authentication only.
  unfoldable pub open_session : Cluster → W → Result Unit × Cluster × W
  open_session c w = if c.auth_type == authtype_session then authenticate net c w else (ok tt, c, w)

  unfoldable pub connect : Cluster → W → Result Unit × Cluster × W
  unfolding open_session get_cluster_config wrap_error
  connect c w =
      let (r, c₁) = initialize c in
      elim r [
        | err e ↦ (err (wrapped "initialize" e), c₁, w)
        | ok _ ↦
            let (a, c₂, w₂) = open_session c₁ w in
            elim a [
              | err e ↦ (err (wrapped "authenticate" e), c₂, w₂)
              | ok _ ↦
                  let (g, c₃, w₃) = get_cluster_config c₂ w₂ in
                  (wrap_error "get cluster config" g, c₃, w₃)
            ]
      ]

  unfoldable pub get_export_path_by_id : ℤ → Cluster × W → Result String × (Cluster × W)
  unfolding path_of_export
  get_export_path_by_id id (c, w) =
      let (r, c', w') = rest_get net c (export_path ++ "/" ++ itoa id) w in
      (r >>= net.unmarshal >>= path_of_export id, (c', w'))

  -- The client is what the backends ask for export paths.
  abbrev pub export_api : ExportApi (Cluster × W)
  export_api = record { get_export_path_by_id = get_export_path_by_id }

  -- `json.Unmarshal` into the API's structures is a parameter, as JSON decoding is.
  module _ (decode_ds_info : String → Result DsInfo)
      (decode_workloads : String → Result (List (PpStatResult Float64))) where
    unfoldable pub get_data_set_info : Cluster → W → Result DsInfo × Cluster × W
    get_data_set_info c w =
        let (r, c', w') = rest_get net c ds_path w in (r >>= decode_ds_info, c', w')

    unfoldable parse_pp_stat_result : String → Result (List (PpStatResult Float64))
    parse_pp_stat_result res = decode_workloads res

    unfoldable pub get_pp_stats :
        String → Cluster → W → Result (List (PpStatResult Float64)) × Cluster × W
    unfolding parse_pp_stat_result
    get_pp_stats ds_name c w =
        let (r, c', w') =
          rest_get net c (pp_workload_path ++ "?degraded=true&nodes=all&dataset=" ++ ds_name) w in
        (r >>= parse_pp_stat_result, c', w')
