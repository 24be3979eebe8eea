-- ===== src/Api/Client/Queries/Laws.antt =====
-- What `GetExportPathByID` makes of the JSON of an export.
use goppstats.Prelude.{String, Option, none, some, ◌≡◌, ◌↔◌, refl, string_eq, arith}
use goppstats.Prelude.Int.{ℤ}
use goppstats.Prelude.Result.{Result, ok, err, ◌>>=◌}
use goppstats.Api.Json.{
  Json, null, truth, falsity, num, str, arr, obj, Items, nil, cons, Fields, get, as_object,
  as_string, first_item,
}
use goppstats.Api.Client.Queries.{path_of_export, or_error, not_null}

or_error-ok :
    {A : Type 0} (o : Option A) (text : String) (a : A) → or_error o text ≡ ok a → o ≡ some a
or_error-ok none text a e = ground (arith, e)
or_error-ok (some b) text a e = ground (arith, e)

pub bind-ok :
    {A B : Type 0} (r : Result A) (f : A → Result B) (b : B)
    → (r >>= f) ≡ ok b
    → (a : A) × (r ≡ ok a) × (f a ≡ ok b)
bind-ok (ok a) f b e = (a, refl, e)
bind-ok (err x) f b e = let no : ⊥ = ground (arith, e) in elim no [ ]

module _ {Float64 : Type 0} where
  -- The JSON has the export first in its list, and the path first in the export's list.
  abbrev pub HasPath : Json Float64 → String → Type 0
  HasPath v path =
      (fields : Fields Float64) × (entry : Fields Float64) × (exports : Items Float64)
      × (paths : Items Float64) × (v ≡ obj fields)
      × (get "exports" fields ≡ some (arr (cons (obj entry) exports)))
      × (get "paths" entry ≡ some (arr (cons (str path) paths)))

  path_of_export-HasPath :
      (id : ℤ) (v : Json Float64) (path : String) → HasPath v path → path_of_export id v ≡ ok path
  unfolding path_of_export as_object as_string first_item
  path_of_export-HasPath id v path (fields, entry, exports, paths, a, b, d) =
      ground (arith, a, b, d)

  pub as_object-some :
      (o : Option (Json Float64)) (f : Fields Float64) → as_object o ≡ some f → o ≡ some (obj f)
  unfolding as_object
  as_object-some none f e = ground (arith, e)
  as_object-some (some (obj g)) f e = ground (arith, e)
  as_object-some (some null) f e = ground (arith, e)
  as_object-some (some truth) f e = ground (arith, e)
  as_object-some (some falsity) f e = ground (arith, e)
  as_object-some (some (num x)) f e = ground (arith, e)
  as_object-some (some (str x)) f e = ground (arith, e)
  as_object-some (some (arr x)) f e = ground (arith, e)

  not_null-some : (o : Option (Json Float64)) (v : Json Float64) → not_null o ≡ some v → o ≡ some v
  not_null-some none v e = e
  not_null-some (some null) v e = ground (arith, e)
  not_null-some (some truth) v e = e
  not_null-some (some falsity) v e = e
  not_null-some (some (num x)) v e = e
  not_null-some (some (str x)) v e = e
  not_null-some (some (arr x)) v e = e
  not_null-some (some (obj x)) v e = e

  pub as_string-some :
      (o : Option (Json Float64)) (s : String) → as_string o ≡ some s → o ≡ some (str s)
  unfolding as_string
  as_string-some none f e = ground (arith, e)
  as_string-some (some (obj g)) f e = ground (arith, e)
  as_string-some (some null) f e = ground (arith, e)
  as_string-some (some truth) f e = ground (arith, e)
  as_string-some (some falsity) f e = ground (arith, e)
  as_string-some (some (num x)) f e = ground (arith, e)
  as_string-some (some (str x)) f e = ground (arith, e)
  as_string-some (some (arr x)) f e = ground (arith, e)

  first_item-some :
      (o : Option (Json Float64)) (v : Json Float64)
      → first_item o ≡ some v
      → (rest : Items Float64) × (o ≡ some (arr (cons v rest)))
  unfolding first_item
  first_item-some none v e = let no : ⊥ = ground (arith, e) in elim no [ ]
  first_item-some (some (arr nil)) v e = let no : ⊥ = ground (arith, e) in elim no [ ]
  first_item-some (some (arr (cons x rest))) v e = (rest, ground (arith, e))
  first_item-some (some (obj g)) v e = let no : ⊥ = ground (arith, e) in elim no [ ]
  first_item-some (some null) v e = let no : ⊥ = ground (arith, e) in elim no [ ]
  first_item-some (some truth) v e = let no : ⊥ = ground (arith, e) in elim no [ ]
  first_item-some (some falsity) v e = let no : ⊥ = ground (arith, e) in elim no [ ]
  first_item-some (some (num x)) v e = let no : ⊥ = ground (arith, e) in elim no [ ]
  first_item-some (some (str x)) v e = let no : ⊥ = ground (arith, e) in elim no [ ]

  HasPath-path_of_export :
      (id : ℤ) (v : Json Float64) (path : String) → path_of_export id v ≡ ok path → HasPath v path
  unfolding path_of_export
  HasPath-path_of_export id v path e =
      let (ea1, e₁, r₁) = bind-ok (or_error (as_object (some v)) _) _ path e in
      let (export, e₂, r₂) = bind-ok (or_error (first_item (get "exports" ea1)) _) _ path r₁ in
      let (entry, e₃, r₃) = bind-ok (or_error (as_object (some export)) _) _ path r₂ in
      let (paths, e₄, r₄) = bind-ok (or_error (not_null (get "paths" entry)) _) _ path r₃ in
      let (last, e₅, r₅) = bind-ok (or_error (first_item (some paths)) _) _ path r₄ in
      let (exports, f₂) = first_item-some (get "exports" ea1) export (or_error-ok _ _ export e₂) in
      let (others, f₅) = first_item-some (some paths) last (or_error-ok _ _ last e₅) in
      let f₁ = as_object-some (some v) ea1 (or_error-ok _ _ ea1 e₁) in
      let f₃ = as_object-some (some export) entry (or_error-ok _ _ entry e₃) in
      let f₄ = not_null-some (get "paths" entry) paths (or_error-ok _ _ paths e₄) in
      let f₆ = as_string-some (some last) path (or_error-ok _ _ path r₅) in
      (
        ea1,
        entry,
        exports,
        others,
        ground (arith, f₁),
        ground (arith, f₂, f₃),
        ground (arith, f₄, f₅, f₆),
      )

  -- A path is taken exactly from JSON in which the export is first in its list and the path first in the
  -- export's list.
  pub path_of_export_lem :
      (id : ℤ) (v : Json Float64) (path : String) → (path_of_export id v ≡ ok path) ↔ HasPath v path
  path_of_export_lem id v path =
      (HasPath-path_of_export id v path, path_of_export-HasPath id v path)
