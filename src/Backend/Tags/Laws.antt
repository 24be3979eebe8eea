-- ===== src/Backend/Tags/Laws.antt =====
-- What the tags of a result are, and when the cluster is asked for an export's path.
use mathlib.Core.Option
use goppstats.Prelude.{
  String, [], ◌∷◌, List, ◌≡◌, refl, sym, ◌∙◌, Option, none, some, arith, ◌==◌, string_eq,
  if◌then◌else◌, Option-cases, inl, inr,
}
use goppstats.Prelude.Int.{ℤ, int_eq}
use goppstats.Prelude.Dict.{lookup, insert, lookup-insert}
use goppstats.Prelude.Format.{itoa}
use goppstats.Api.Types.{PpStatResult}
use goppstats.Backend.Exports.{ExportMap, ExportApi}
use goppstats.Backend.Tags.{
  PtTags, set_opt, or_else, answer, export_path_of, export_tags, groupname_tag, username_tag,
  zone_name_tag, criteria_tags, tags_for_pp_stat,
}

module _ {W : Type 0} (api : ExportApi W) where
  -- An id is asked for once: its path is kept, a failed lookup too.
  export_path_of-again :
      (id : ℤ) (exports : ExportMap) (w : W)
      → let (path, exports', w') = export_path_of api id exports w in
        export_path_of api id exports' w' ≡ (path, exports', w')
  unfolding export_path_of
  export_path_of-again id exports w = elim (Option-cases (lookup id exports.path_by_id)) [
    | inl e ↦
        let path : String = answer api (api.get_export_path_by_id id w).0 in
        ground (arith, e, lookup-insert id id path exports.path_by_id, int_eq.beq_iff id id)
    | inr (path, e) ↦ ground (arith, e)
  ]

  enabled-export_path_of :
      (id : ℤ) (exports : ExportMap) (w : W)
      → (export_path_of api id exports w).1.enabled ≡ exports.enabled
  unfolding export_path_of
  enabled-export_path_of id exports w = ground arith

  enabled-export_tags :
      (id : Option ℤ) (exports : ExportMap) (w : W)
      → (export_tags api id exports w).1.enabled ≡ exports.enabled
  unfolding export_tags
  enabled-export_tags none exports w = refl
  enabled-export_tags (some id) exports w = ground (arith, enabled-export_path_of id exports w)

  -- The lookups stay enabled, or not.
  pub enabled-tags_for_pp_stat :
      {Float64 : Type 0} (stat : PpStatResult Float64) (exports : ExportMap) (w : W)
      → (tags_for_pp_stat api stat exports w).1.enabled ≡ exports.enabled
  unfolding tags_for_pp_stat
  enabled-tags_for_pp_stat stat exports w = enabled-export_tags stat.export_id exports w

  export_tags-again :
      (id : Option ℤ) (exports : ExportMap) (w : W)
      → let (tags, exports', w') = export_tags api id exports w in
        export_tags api id exports' w' ≡ (tags, exports', w')
  unfolding export_tags
  export_tags-again none exports w = refl
  export_tags-again (some id) exports w =
      ground (arith, export_path_of-again id exports w, enabled-export_path_of id exports w)

lookup-set_opt :
    (key j : String) (o : Option String) (tags : PtTags)
    → lookup j (set_opt key o tags)
      ≡ (if key == j then or_else o (lookup j tags) else lookup j tags)
unfolding set_opt
lookup-set_opt key j none tags = ground arith
lookup-set_opt key j (some v) tags = ground (arith, lookup-insert key j v tags)

-- A table of tags, each with its value if the result has one.
abbrev Table : Type 0
Table = List (String × Option String)

abbrev set_all : Table → PtTags → PtTags
set_all [] tags = tags
set_all ((key, o) ∷ rest) tags = set_all rest (set_opt key o tags)

-- The value that the table has for a key.
abbrev in_table : String → Table → Option String
in_table j [] = none
in_table j ((key, o) ∷ rest) = or_else (in_table j rest) (if key == j then o else none)

or_else_assoc : (a b c : Option String) → or_else (or_else a b) c ≡ or_else a (or_else b c)
or_else_assoc none b c = refl
or_else_assoc (some a) b c = refl

lookup-set_all :
    (j : String) (table : Table) (tags : PtTags)
    → lookup j (set_all table tags) ≡ or_else (in_table j table) (lookup j tags)
lookup-set_all j [] tags = refl
lookup-set_all j ((key, o) ∷ rest) tags =
    ground (arith, lookup-set_all j rest (set_opt key o tags), lookup-set_opt key j o tags)

module _ {Float64 : Type 0} (s : PpStatResult Float64) where
  abbrev pub criteria : Table
  criteria =
      ("groupname", groupname_tag s)
      ∷ ("local_address", or_else s.local_name s.local_address)
      ∷ ("path", s.path)
      ∷ ("protocol", s.protocol)
      ∷ ("remote_address", or_else s.remote_name s.remote_address)
      ∷ ("share_name", s.share_name)
      ∷ ("username", username_tag s)
      ∷ ("zone_name", zone_name_tag s)
      ∷ ("workload_type", s.workload_type)
      ∷ ("system_name", s.system_name)
      ∷ ("job_type", s.job_type)
      ∷ ("domain_id", s.domain_id)
      ∷ ("workload_id", Option.map itoa s.workload_id)
      ∷ []

  lookup-criteria_tags :
      (j : String) (tags : PtTags)
      → lookup j (criteria_tags s tags) ≡ or_else (in_table j criteria) (lookup j tags)
  unfolding criteria_tags
  lookup-criteria_tags j tags = lookup-set_all j criteria tags

module _ {W : Type 0} (api : ExportApi W) where
  lookup-export_tags :
      (o : Option ℤ) (exports : ExportMap) (w : W) (j : String)
      → lookup j (export_tags api o exports w).0
        ≡ in_table j (
            ("export_id", Option.map itoa o)
            ∷ (
              "export_path",
              if exports.enabled
                  then Option.map (λ id. (export_path_of api id exports w).0) o
                  else none,
            )
            ∷ [])
  unfolding export_tags lookup
  lookup-export_tags none exports w j = ground arith
  lookup-export_tags (some id) exports w j = ground (
    arith,
    lookup-insert "export_path" j (export_path_of api id exports w).0
        (insert "export_id" (itoa id) []),
    lookup-insert "export_id" j (itoa id) [],
  )

module _ {Float64 W : Type 0} (api : ExportApi W) where
  -- The path of the export, where lookups are enabled.
  abbrev export_path_tag : PpStatResult Float64 → ExportMap → W → Option String
  export_path_tag s exports w =
      if exports.enabled
      then Option.map (λ id. (export_path_of api id exports w).0) s.export_id
      else none

  -- Each tag is its own criterion of the result: there is no other tag, and none hides another.
  pub lookup-tags_for_pp_stat :
      (s : PpStatResult Float64) (exports : ExportMap) (w : W) (j : String)
      → lookup j (tags_for_pp_stat api s exports w).0
        ≡ in_table j (
            ("export_id", Option.map itoa s.export_id)
            ∷ ("export_path", export_path_tag s exports w)
            ∷ criteria s)
  unfolding tags_for_pp_stat
  lookup-tags_for_pp_stat s exports w j =
      lookup-criteria_tags s j (export_tags api s.export_id exports w).0
      ∙ rw (lookup-export_tags api s.export_id exports w j)
          (sym (or_else_assoc (in_table j (criteria s)) _ _))

  -- The tags of the same result, asked for again, are the same, and the cluster is not asked.
  pub tags_for_pp_stat-again :
      (s : PpStatResult Float64) (exports : ExportMap) (w : W)
      → let (tags, exports', w') = tags_for_pp_stat api s exports w in
        tags_for_pp_stat api s exports' w' ≡ (tags, exports', w')
  unfolding tags_for_pp_stat
  tags_for_pp_stat-again s exports w = ground (arith, export_tags-again api s.export_id exports w)
