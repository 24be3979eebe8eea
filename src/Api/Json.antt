-- ===== src/Api/Json.antt =====
-- JSON as `encoding/json` decodes it into `any`. Decoding itself is a parameter of the client. A
-- number is a `float64`.
use goppstats.Prelude.{String, Option, none, some, ◌==◌, string_eq, if◌then◌else◌}

mutual
  pub data Json (Float64 : Type 0) : Type 0 where
    null truth falsity : Json Float64
    num : Float64 → Json Float64
    str : String → Json Float64
    arr : Items Float64 → Json Float64
    obj : Fields Float64 → Json Float64

  pub data Items (Float64 : Type 0) : Type 0 where
    nil : Items Float64
    cons : Json Float64 → Items Float64 → Items Float64

  pub data Fields (Float64 : Type 0) : Type 0 where
    end : Fields Float64
    field : String → Json Float64 → Fields Float64 → Fields Float64

module _ {Float64 : Type 0} where
  abbrev or_first : Option (Json Float64) → Json Float64 → Option (Json Float64)
  or_first (some later) v = some later
  or_first none v = some v

  -- `m[key]` of a decoded object: the last of the fields of a name.
  unfoldable pub get : String → Fields Float64 → Option (Json Float64)
  get key end = none
  get key (field k v rest) =
      let later = get key rest in if k == key then or_first later v else later

  -- `v.(map[string]any)`, on a value or on a missing one
  unfoldable pub as_object : Option (Json Float64) → Option (Fields Float64)
  as_object (some (obj fields)) = some fields
  as_object _ = none

  -- `v.(string)`
  unfoldable pub as_string : Option (Json Float64) → Option String
  as_string (some (str s)) = some s
  as_string _ = none

  -- `l[0]` of `l, ok := v.([]any)`, unless `!ok || len(l) == 0`
  unfoldable pub first_item : Option (Json Float64) → Option (Json Float64)
  first_item (some (arr (cons v rest))) = some v
  first_item _ = none
