-- ===== src/Proto.antt =====
-- grpc_server.go: records between the store and the wire. The message fields `priority`, `weight`,
-- `port` and `flag` are `uint32`; those of the record are narrower.
pub mod Convert
use coredns_updater_plugin.Base.{ℕ, ◌-◌, ◌%◌, ◌^◌, ltb, if◌then◌else◌, Result, ok, err}
use coredns_updater_plugin.Text.{Text}
use coredns_updater_plugin.Record.{Record}

pub record PbRecord : Type 0 where
  pub name : Text
  pub type : Text
  pub ttl : ℕ
  pub value : Text
  pub priority : ℕ
  pub weight : ℕ
  pub port : ℕ
  pub flag : ℕ
  pub tag : Text

abbrev pub max_uint16 : ℕ
max_uint16 = 2 ^ 16 - 1

abbrev pub max_uint8 : ℕ
max_uint8 = 2 ^ 8 - 1

pub data TooLarge : Type 0 where
  priority_exceeds weight_exceeds port_exceeds flag_exceeds : ℕ → TooLarge

unfoldable pub record_to_proto : Record → PbRecord
record_to_proto r = record {
  name = r.name;
  type = r.type;
  ttl = r.ttl;
  value = r.value;
  priority = r.priority % 2 ^ 32;
  weight = r.weight % 2 ^ 32;
  port = r.port % 2 ^ 32;
  flag = r.flag % 2 ^ 32;
  tag = r.tag;
}

unfoldable pub proto_to_record : PbRecord → Result TooLarge Record
proto_to_record p =
    if ltb max_uint16 p.priority
    then err (priority_exceeds p.priority)
    else if ltb max_uint16 p.weight
    then err (weight_exceeds p.weight)
    else if ltb max_uint16 p.port
    then err (port_exceeds p.port)
    else if ltb max_uint8 p.flag
    then err (flag_exceeds p.flag)
    else ok (record {
      name = p.name;
      type = p.type;
      ttl = p.ttl;
      value = p.value;
      priority = p.priority % 2 ^ 16;
      weight = p.weight % 2 ^ 16;
      port = p.port % 2 ^ 16;
      flag = p.flag % 2 ^ 8;
      tag = p.tag;
    })
