-- ===== src/Influx.antt =====
-- The InfluxDB back ends (influxdb.go and influxdbv2.go): the state of a sink, and what a point is made of.
pub mod V1
pub mod V2
pub mod Agree
use goppstats.Prelude.{String}
use goppstats.Prelude.Int.{ℤ}
use goppstats.Backend.Exports.{ExportMap}
use goppstats.Backend.Fields.{PtFields}
use goppstats.Backend.Tags.{PtTags}

-- What a client library is given for a point; the time is in seconds.
pub record PointArgs (Float64 : Type 0) : Type 0 where
  pub key_name : String
  pub tags : PtTags
  pub fields : PtFields Float64
  pub time : ℤ

-- `InfluxDBSink` and `InfluxDBv2Sink`, less the cluster, which is a state of its own, and less what they
-- keep of the client library.
pub record InfluxSink : Type 0 where
  pub cluster_name : String
  pub exports : ExportMap
