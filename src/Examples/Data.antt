-- ===== src/Examples/Data.antt =====
-- A small cluster: one dataset by user name and export, a workload on two nodes.
use goppstats.Prelude.{ℕ, String, [], ◌∷◌, none, some, true, string_eq}
use goppstats.Prelude.Int.{pos}
use goppstats.Prelude.Result.{ok}
use goppstats.Prelude.Dict.{Dict}
use goppstats.Api.Types.{DsInfoEntry, DsInfo, PpStatResult}
use goppstats.Backend.Exports.{ExportApi}
use goppstats.Prometheus.{Sample, PrometheusSink}
use goppstats.Prometheus.Datasets.Updates.{made}

-- An answer of the cluster to every export: its path.
abbrev pub api : ExportApi ℕ
api = record { get_export_path_by_id = λ id calls. (ok "/ifs/data", calls) }

abbrev pub stat : PpStatResult ℕ
stat = record {
  cpu = 1;
  ops = 2;
  reads = 3;
  writes = 4;
  bytes_out = 5;
  bytes_in = 6;
  l2 = 7;
  l3 = 8;
  latency_read = 9;
  latency_write = 10;
  latency_other = 11;
  node = pos 1;
  unix_time = pos 1700000000;
  username = some "alice";
  protocol = none;
  share_name = none;
  job_type = none;
  group_name = none;
  path = none;
  zone_name = none;
  domain_id = none;
  export_id = some (pos 2);
  user_id = none;
  local_address = none;
  user_sid = none;
  error_string = none;
  remote_address = none;
  workload_type = none;
  group_sid = none;
  remote_name = none;
  system_name = none;
  zone_id = none;
  workload_id = none;
  local_name = none;
  group_id = none;
}

-- The same workload on another node.
abbrev pub stat_on_node_2 : PpStatResult ℕ
stat_on_node_2 = record stat { node = pos 2; ops = 20 }

abbrev pub entry : DsInfoEntry
entry = record {
  creation_time = pos 1600000000;
  filter_count = pos 0;
  filters = [];
  id = pos 1;
  metrics = "username" ∷ "export_id" ∷ [];
  name = "by_user";
  stat_key = "cluster.performance.dataset.1";
  workload_count = pos 0;
}

abbrev pub answer : DsInfo
answer = record { datasets = entry ∷ []; resume = ""; total = pos 1 }

abbrev pub sink : PrometheusSink ℕ
sink = record {
  cluster_name = "isi";
  instance_label_name = "";
  exports = record { enabled = true; path_by_id = [] };
  dsm = some ((pos 1, made true entry) ∷ []);
  fam = [];
}

abbrev pub ops_family : String
ops_family = "isilon_ppstat_export_id_export_path_username_ops"

abbrev pub alice_id : String
alice_id = "export_id=2,export_path=/ifs/data,username=alice"

abbrev pub alice_labels : String → Dict String String
alice_labels node =
    ("cluster", "isi")
    ∷ ("node", node)
    ∷ ("username", "alice")
    ∷ ("export_id", "2")
    ∷ ("export_path", "/ifs/data")
    ∷ ("pinned", "false")
    ∷ []

abbrev pub ops_sample : Sample ℕ
ops_sample = record {
  labels = alice_labels "1";
  value = 2;
  timestamp = pos 1700000000;
  expiration = 30000000005;
}
