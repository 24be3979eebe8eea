-- ===== src/Prometheus.antt =====
-- The state of the Prometheus backend (prometheus.go): the datasets with their metric names, and the
-- metric families with the samples that the next scrape is answered from.
pub mod Datasets
pub mod Samples
pub mod SampleId
pub mod Expire
pub mod Collect
pub mod Write
pub mod Spec
pub mod Scraped
pub mod Server
use goppstats.Prelude.{ℕ, String, List, Option}
use goppstats.Prelude.Int.{ℤ}
use goppstats.Prelude.Dict.{Dict}
use goppstats.Api.Types.{DsInfoEntry}
use goppstats.Backend.Exports.{ExportMap}

abbrev pub namespace : String
namespace = "isilon"

abbrev pub base_pp_name : String
base_pp_name = "ppstat"

-- One metric of the "/metrics" endpoint.
pub record PromMetric : Type 0 where
  pub name : String
  pub description : String
  pub labels : List String

-- A dataset and its metrics, by field key.
pub record PromDsInternal : Type 0 where
  pub ds : DsInfoEntry
  pub metrics : Dict String PromMetric

abbrev pub PromDsMap : Type 0
PromDsMap = Dict ℤ PromDsInternal

-- A value of a series. The expiration is in nanoseconds since the epoch, the timestamp in seconds.
pub record Sample (Float64 : Type 0) : Type 0 where
  pub labels : Dict String String
  pub value : Float64
  pub timestamp : ℤ
  pub expiration : ℕ

-- `samples` goes by sample id, `label_set` counts the samples that carry a label.
pub record MetricFamily (Float64 : Type 0) : Type 0 where
  pub samples : Dict String (Sample Float64)
  pub label_set : Dict String ℤ
  pub desc : String

abbrev pub Families : Type 0 → Type 0
Families Float64 = Dict String (MetricFamily Float64)

-- `PrometheusSink`, less its mutex (a call holds it from its first to its last step, so calls are
-- steps), its HTTP client, and the cluster, which is a state of its own. `dsm` is nil until the
-- first update.
pub record PrometheusSink (Float64 : Type 0) : Type 0 where
  pub cluster_name : String
  pub instance_label_name : String
  pub exports : ExportMap
  pub dsm : Option PromDsMap
  pub fam : Families Float64
