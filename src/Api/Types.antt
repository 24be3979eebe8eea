-- ===== src/Api/Types.antt =====
-- The data that the OneFS API returns (isilon_api.go). `int` and `int64` are ℤ, `*T` is `Option T`,
-- and `float64` is a parameter: no operation of the program computes with a measured value.
use goppstats.Prelude.{ℕ, String, List, Option}
use goppstats.Prelude.Int.{ℤ}

-- Metadata of one partitioned performance dataset.
pub record DsInfoEntry : Type 0 where
  pub creation_time : ℤ
  pub filter_count : ℤ
  pub filters : List String
  pub id : ℤ
  pub metrics : List String
  pub name : String
  pub stat_key : String
  pub workload_count : ℤ

pub record DsInfo : Type 0 where
  pub datasets : List DsInfoEntry
  pub resume : String
  pub total : ℤ

-- One workload entry of the partitioned performance endpoint.
pub record PpStatResult (Float64 : Type 0) : Type 0 where
  pub cpu : Float64
  pub ops : Float64
  pub reads : Float64
  pub writes : Float64
  pub bytes_out : Float64
  pub bytes_in : Float64
  pub l2 : Float64
  pub l3 : Float64
  pub latency_read : Float64
  pub latency_write : Float64
  pub latency_other : Float64
  pub node : ℤ
  pub unix_time : ℤ
  pub username : Option String
  pub protocol : Option String
  pub share_name : Option String
  pub job_type : Option String
  pub group_name : Option String
  pub path : Option String
  pub zone_name : Option String
  pub domain_id : Option String
  pub export_id : Option ℤ
  pub user_id : Option ℤ
  pub local_address : Option String
  pub user_sid : Option String
  pub error_string : Option String
  pub remote_address : Option String
  pub workload_type : Option String
  pub group_sid : Option String
  pub remote_name : Option String
  pub system_name : Option String
  pub zone_id : Option ℤ
  pub workload_id : Option ℤ
  pub local_name : Option String
  pub group_id : Option ℤ

-- `MaxDsID`: the highest dataset id that the API supports.
abbrev pub max_ds_id : ℕ
max_ds_id = 4
