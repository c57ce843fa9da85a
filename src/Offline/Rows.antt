-- ===== src/Offline/Rows.antt =====
-- What the searches put into their results for a device and an interface of it.
use mapper.Prelude.{String, Option, none, some}
use mapper.Prelude.Obj.{get}
use mapper.Text.{◌>>=◌}
use mapper.Offline.{Port, OfflineDevice, Neighbour, HeardOn, OfflineData}

pub record Row : Type 0 where
  pub dev_id : String
  pub if_name : String
  pub interface : Option Port
  pub short_name : Option String
  pub safe_dev_id : Option String
  pub overall_status : Option String

abbrev pub dev_row : String → OfflineDevice → String → Row
dev_row dev d int = record {
  dev_id = dev;
  if_name = int;
  interface = get int d.interfaces;
  short_name = get "short_name" d.fields;
  safe_dev_id = get "safe_dev_id" d.fields;
  overall_status = get "overall_status" d.fields;
}

-- The row for a device by its id: one that is not there is a TypeError.
unfoldable pub row_of : OfflineData → String → String → Option Row
row_of od dev int = get dev od.devs >>= λ d. some (dev_row dev d int)

-- A neighbour that a device hears. The interface is that of the port, where the device has it.
pub record Heard : Type 0 where
  pub dev_id : String
  pub short_name : Option String
  pub safe_dev_id : Option String
  pub overall_status : Option String
  pub source : String
  pub heard_of : Neighbour
  pub nei_index : String
  pub port_index : String
  pub interface : Option Port
  pub if_name : Option String

abbrev interface_at : OfflineDevice → Option String → Option Port
interface_at d none = none
interface_at d (some int) = get int d.interfaces

abbrev name_if : Option String → Option Port → Option String
name_if int none = none
name_if int (some p) = int

abbrev pub heard : String → String → OfflineDevice → String → HeardOn → String → Neighbour → Heard
heard source dev d port p idx n = record {
  dev_id = dev;
  short_name = get "short_name" d.fields;
  safe_dev_id = get "safe_dev_id" d.fields;
  overall_status = get "overall_status" d.fields;
  source = source;
  heard_of = n;
  nei_index = idx;
  port_index = port;
  interface = interface_at d p.if_name;
  if_name = name_if p.if_name (interface_at d p.if_name);
}
