-- ===== src/Proto/Convert.antt =====
-- The conversions are inverse to one another on what fits.
use coredns_updater_plugin.Base.{◌^◌, ◌<◌, ◌≡◌, ◌↔◌, arith, ok}
use coredns_updater_plugin.Record.{Record}
use coredns_updater_plugin.Proto.{PbRecord, record_to_proto, proto_to_record}

-- The fields of a Go value of type `Record` that are narrower than the wire's.
pub record IsNarrow (r : Record) : Type 0 where
  pub priority : r.priority < 2 ^ 16
  pub weight : r.weight < 2 ^ 16
  pub port : r.port < 2 ^ 16
  pub flag : r.flag < 2 ^ 8

-- Every record goes to the wire and back unchanged.
pub proto_to_record-record_to_proto :
    (r : Record) → IsNarrow r → proto_to_record (record_to_proto r) ≡ ok r
unfolding proto_to_record record_to_proto
proto_to_record-record_to_proto r n = ground arith

-- A message is accepted as the record `r` exactly if it is the message of `r` and the fields of
-- `r` fit their width: nothing is cut off on the way in.
pub proto_to_record_iff :
    (p : PbRecord) (r : Record)
    → (proto_to_record p ≡ ok r) ↔ (IsNarrow r × (record_to_proto r ≡ p))
unfolding proto_to_record record_to_proto
proto_to_record_iff p r = (λ h. (ground arith, ground arith), λ h. ground arith)
