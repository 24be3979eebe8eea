-- ===== src/Prometheus/Datasets/Updates.antt =====
-- What `UpdateDatasets` does to each slot.
use mathlib.Core.Option
use goppstats.Prelude.{
  Option-cases, inl, inr, ℕ, zero, suc, ◌+◌, List, [], ◌∷◌, ◌≡◌, refl, ◌∙◌, Option, none, some,
  Bool, true, false, ◌&&◌, arith, ◌==◌, if◌then◌else◌, leb, ltb,
}
use goppstats.Prelude.Int.{ℤ, pos, int_eq}
use goppstats.Prelude.Dict.{Dict, lookup, insert, remove, lookup-insert, lookup-remove}
use goppstats.Api.Types.{DsInfoEntry, DsInfo, max_ds_id}
use goppstats.Prometheus.{PromDsInternal, PromDsMap, PrometheusSink}
use goppstats.Prometheus.Datasets.{
  make_prom_dataset, fill_metrics, make_prom_metrics, dataset_entry, create_dataset, clear_dataset,
  create_all, entries_by_id, update_slot, update_slots, update_dsm, update_datasets,
}

-- The dataset that is made from an entry.
abbrev pub made : Bool → DsInfoEntry → PromDsInternal
made enabled entry = fill_metrics (make_prom_dataset (dataset_entry enabled entry))

-- `CreateDataset` stores the dataset with its metrics, and touches no other slot.
lookup-create_dataset :
    (enabled : Bool) (id j : ℤ) (entry : DsInfoEntry) (dsm : PromDsMap)
    → lookup j (create_dataset enabled id entry dsm)
      ≡ (if id == j then some (made enabled entry) else lookup j dsm)
unfolding create_dataset make_prom_metrics
lookup-create_dataset enabled id j entry dsm =
    let dsi = make_prom_dataset (dataset_entry enabled entry) in
    ground (
      arith,
      lookup-insert id id dsi dsm,
      lookup-insert id j dsi dsm,
      lookup-insert id j (fill_metrics dsi) (insert id dsi dsm),
      int_eq.beq_iff id id,
    )

-- What a slot holds after an update, from what it held and the new entry of its id.
abbrev pub slot : Bool → Option PromDsInternal → Option DsInfoEntry → Option PromDsInternal
slot enabled old none = none
slot enabled none (some new) = some (made enabled new)
slot enabled (some cur) (some new) =
    if cur.ds.creation_time == new.creation_time then some cur else some (made enabled new)

lookup-update_slot :
    (enabled : Bool) (nsd : Dict ℤ DsInfoEntry) (id j : ℤ) (dsm : PromDsMap)
    → lookup j (update_slot enabled nsd id dsm)
      ≡ (if id == j then slot enabled (lookup id dsm) (lookup id nsd) else lookup j dsm)
unfolding update_slot clear_dataset
lookup-update_slot enabled nsd id j dsm = elim (Option-cases (lookup id nsd)) [
  | inl e ↦ ground (arith, e, lookup-remove id j dsm, int_eq.beq_iff id j)
  | inr (new, e) ↦ ground (
    arith,
    e,
    lookup-create_dataset enabled id j new dsm,
    lookup-create_dataset enabled id j new (remove id dsm),
    lookup-remove id j dsm,
    int_eq.beq_iff id j,
  )
]

-- Whether the loop from `first`, with that many rounds left, visits an id.
abbrev visited : ℕ → ℕ → ℤ → Bool
visited rounds first (pos n) = leb first n && ltb n (first + rounds)
visited rounds first _ = false

lookup-update_slots :
    (enabled : Bool) (nsd : Dict ℤ DsInfoEntry) (rounds first : ℕ) (j : ℤ) (dsm : PromDsMap)
    → lookup j (update_slots enabled nsd rounds first dsm) ≡ (
        if visited rounds first j then slot enabled (lookup j dsm) (lookup j nsd) else lookup j dsm)
unfolding update_slots
lookup-update_slots enabled nsd zero first (pos n) dsm = ground arith
lookup-update_slots enabled nsd zero first j dsm = refl
lookup-update_slots enabled nsd (suc rounds) first (pos n) dsm = ground (
  arith,
  lookup-update_slots enabled nsd rounds (first + 1) (pos n)
      (update_slot enabled nsd (pos first) dsm),
  lookup-update_slot enabled nsd (pos first) (pos n) dsm,
)
lookup-update_slots enabled nsd (suc rounds) first j dsm = ground (
  arith,
  lookup-update_slots enabled nsd rounds (first + 1) j (update_slot enabled nsd (pos first) dsm),
  lookup-update_slot enabled nsd (pos first) j dsm,
)

-- The slots that `UpdateDatasets` compares after its first call.
abbrev pub is_user_slot : ℤ → Bool
is_user_slot = visited max_ds_id 1

abbrev pub new_entry : DsInfo → ℤ → Option DsInfoEntry
new_entry di id = lookup id (entries_by_id di.datasets [])

-- The dataset of an id, of a sink that may not have any yet.
abbrev pub held : ℤ → Option PromDsMap → Option PromDsInternal
held id none = none
held id (some dsm) = lookup id dsm

-- The first call creates the last entry of each id.
lookup-create_all :
    (enabled : Bool) (datasets : List DsInfoEntry) (j : ℤ) (dsm : PromDsMap)
    (m : Dict ℤ DsInfoEntry)
    → lookup j dsm ≡ Option.map (made enabled) (lookup j m)
    → lookup j (create_all enabled datasets dsm)
      ≡ Option.map (made enabled) (lookup j (entries_by_id datasets m))
unfolding create_all entries_by_id
lookup-create_all enabled [] j dsm m h = h
lookup-create_all enabled (ds ∷ rest) j dsm m h =
    lookup-create_all enabled rest j (create_dataset enabled ds.id ds dsm) (insert ds.id ds m)
      (ground (arith, h, lookup-create_dataset enabled ds.id j ds dsm, lookup-insert ds.id j ds m))

-- What an id holds after an update: on the first call the last entry of the id, afterwards what the
-- rule of its slot says.
abbrev updated : Bool → Option PromDsMap → DsInfo → ℤ → Option PromDsInternal
updated enabled none di id = Option.map (made enabled) (new_entry di id)
updated enabled (some dsm) di id =
    if is_user_slot id then slot enabled (lookup id dsm) (new_entry di id) else lookup id dsm

pub lookup-update_dsm :
    (enabled : Bool) (old : Option PromDsMap) (di : DsInfo) (id : ℤ)
    → lookup id (update_dsm enabled di.datasets old) ≡ updated enabled old di id
unfolding update_dsm
lookup-update_dsm enabled none di id =
    lookup-create_all enabled di.datasets id [] [] (unfold lookup in refl)
lookup-update_dsm enabled (some dsm) di id =
    lookup-update_slots enabled (entries_by_id di.datasets []) max_ds_id 1 id dsm

abbrev created : Option PromDsInternal → Option ℤ
created = Option.map (λ d. d.ds.creation_time)

slot-created :
    (enabled : Bool) (old : Option PromDsInternal) (new : Option DsInfoEntry)
    → created (slot enabled old new) ≡ Option.map (λ e. e.creation_time) new
unfolding fill_metrics make_prom_dataset dataset_entry
slot-created enabled none none = refl
slot-created enabled (some cur) none = refl
slot-created enabled none (some new) = ground arith
slot-created enabled (some cur) (some new) =
    ground (arith, int_eq.beq_iff cur.ds.creation_time new.creation_time)

slot-slot :
    (enabled : Bool) (old : Option PromDsInternal) (new : Option DsInfoEntry)
    → slot enabled (slot enabled old new) new ≡ slot enabled old new
unfolding fill_metrics make_prom_dataset dataset_entry
slot-slot enabled none none = refl
slot-slot enabled (some cur) none = refl
slot-slot enabled none (some new) =
    ground (arith, int_eq.beq_iff new.creation_time new.creation_time)
slot-slot enabled (some cur) (some new) =
    ground (arith, int_eq.beq_iff new.creation_time new.creation_time)

slot-none :
    (enabled : Bool) (new : Option DsInfoEntry)
    → Option.map (made enabled) new ≡ slot enabled none new
slot-none enabled none = refl
slot-none enabled (some new) = refl

created-updated :
    (enabled : Bool) (old : Option PromDsMap) (di : DsInfo) (id : ℤ)
    → is_user_slot id ≡ true
    → created (updated enabled old di id) ≡ Option.map (λ e. e.creation_time) (new_entry di id)
created-updated enabled none di id h =
    rw (slot-none enabled (new_entry di id)) (slot-created enabled none (new_entry di id))
created-updated enabled (some dsm) di id h =
    rw h (slot-created enabled (lookup id dsm) (new_entry di id))

slot-updated :
    (enabled : Bool) (old : Option PromDsMap) (di : DsInfo) (id : ℤ)
    → (if is_user_slot id
        then slot enabled (updated enabled old di id) (new_entry di id)
        else updated enabled old di id)
      ≡ updated enabled old di id
slot-updated enabled none di id =
    ground (arith, slot-none enabled (new_entry di id), slot-slot enabled none (new_entry di id))
slot-updated enabled (some dsm) di id =
    ground (arith, slot-slot enabled (lookup id dsm) (new_entry di id))

module _ {Float64 : Type 0} (di : DsInfo) (s : PrometheusSink Float64) where
  -- `UpdateDatasets` leaves in every slot what its rule says: a user slot keeps its dataset if the
  -- creation time is that of the answer, else it has the dataset made from the new entry or none; the
  -- other slots are filled by the first update only.
  pub update_datasets_lem :
      (id : ℤ) → held id (update_datasets di s).dsm ≡ updated s.exports.enabled s.dsm di id
  unfolding update_datasets
  update_datasets_lem id = lookup-update_dsm s.exports.enabled s.dsm di id

  -- After an update every user slot has the creation time of the answer's entry of its number, or is
  -- empty if there is none.
  update_datasets-current :
      (id : ℤ)
      → is_user_slot id ≡ true
      → created (held id (update_datasets di s).dsm)
        ≡ Option.map (λ e. e.creation_time) (new_entry di id)
  update_datasets-current id h =
      rw (update_datasets_lem id) (created-updated s.exports.enabled s.dsm di id h)

  -- A second update with the same answer leaves every slot as the first has.
  update_datasets_idem :
      (id : ℤ)
      → held id (update_datasets di (update_datasets di s)).dsm ≡ held id (update_datasets di s).dsm
  unfolding update_datasets
  update_datasets_idem id =
      let enabled = s.exports.enabled in
      let first = update_dsm enabled di.datasets s.dsm in
      lookup-update_dsm enabled (some first) di id
      ∙ rw (lookup-update_dsm enabled s.dsm di id) (slot-updated enabled s.dsm di id)
