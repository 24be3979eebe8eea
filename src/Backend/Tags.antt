-- ===== src/Backend/Tags.antt =====
-- `tagsForPPStat` (backend.go): a result's criteria as text tags.
pub mod Laws
use Prim.Native.String.{◌++◌}
use mathlib.Core.Option
use goppstats.Prelude.{String, [], Option, none, some, true, false, string_eq}
use goppstats.Prelude.Int.{ℤ, int_eq}
use goppstats.Prelude.Format.{itoa}
use goppstats.Prelude.Result.{Result, ok, err}
use goppstats.Prelude.Dict.{Dict, lookup, insert}
use goppstats.Api.Types.{PpStatResult}
use goppstats.Backend.Exports.{ExportMap, ExportApi}

abbrev pub PtTags : Type 0
PtTags = Dict String String

-- `if v != nil { tags[key] = *v }`
unfoldable pub set_opt : String → Option String → PtTags → PtTags
set_opt key none tags = tags
set_opt key (some v) tags = insert key v tags

-- `if a != nil { … } else { … }`
abbrev pub or_else : Option String → Option String → Option String
or_else (some a) b = some a
or_else none b = b

abbrev lookup_failed : String
lookup_failed = "unknown (lookup failed)"

-- The path of an export: from the map, or from the cluster. Either answer of the cluster is kept.
module _ {W : Type 0} (api : ExportApi W) where
  abbrev answer : Result String → String
  answer (ok path) = path
  answer (err e) = lookup_failed

  unfoldable pub export_path_of : ℤ → ExportMap → W → String × ExportMap × W
  export_path_of id exports w = elim (lookup id exports.path_by_id) [
    | some path ↦ (path, exports, w)
    | none ↦
        let (result, w') = api.get_export_path_by_id id w in
        (
          answer result,
          record exports { path_by_id = insert id (answer result) exports.path_by_id },
          w',
        )
  ]

  unfoldable pub export_tags : Option ℤ → ExportMap → W → PtTags × ExportMap × W
  unfolding export_path_of
  export_tags none exports w = ([], exports, w)
  export_tags (some id) exports w =
      let tags : PtTags = insert "export_id" (itoa id) [] in
      elim exports.enabled [
        | false ↦ (tags, exports, w)
        | true ↦
            let (path, exports', w') = export_path_of id exports w in
            (insert "export_path" path tags, exports', w')
      ]

module _ {Float64 : Type 0} (s : PpStatResult Float64) where
  open s use {
    group_name, group_id, group_sid, local_name, local_address, remote_name, remote_address,
    username, user_id, user_sid, zone_name, zone_id,
  }

  abbrev pub groupname_tag : Option String
  groupname_tag = or_else (Option.map (λ n. "GID:" ++ n) group_name) (
      or_else (Option.map (λ n. "GID:" ++ itoa n) group_id)
        (Option.map (λ n. "SID:" ++ n) group_sid))

  abbrev pub username_tag : Option String
  username_tag = or_else username (
      or_else (Option.map (λ n. "UID:" ++ itoa n) user_id) (Option.map (λ n. "SID:" ++ n) user_sid))

  abbrev pub zone_name_tag : Option String
  zone_name_tag = or_else zone_name (Option.map (λ n. "zone:" ++ itoa n) zone_id)

  -- Everything below the export id: the rest of the function.
  unfoldable pub criteria_tags : PtTags → PtTags
  criteria_tags tags = set_opt "workload_id" (Option.map itoa s.workload_id) (
      set_opt "domain_id" s.domain_id (
        set_opt "job_type" s.job_type (
          set_opt "system_name" s.system_name (
            set_opt "workload_type" s.workload_type (
              set_opt "zone_name" zone_name_tag (
                set_opt "username" username_tag (
                  set_opt "share_name" s.share_name (
                    set_opt "remote_address" (or_else remote_name remote_address) (
                      set_opt "protocol" s.protocol (
                        set_opt "path" s.path (
                          set_opt "local_address" (or_else local_name local_address)
                            (set_opt "groupname" groupname_tag tags))))))))))))

module _ {Float64 W : Type 0} (api : ExportApi W) where
  unfoldable pub tags_for_pp_stat : PpStatResult Float64 → ExportMap → W → PtTags × ExportMap × W
  tags_for_pp_stat s exports w =
      let (tags, exports', w') = export_tags api s.export_id exports w in
      (criteria_tags s tags, exports', w')
