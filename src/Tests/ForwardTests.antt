-- ===== src/Tests/ForwardTests.antt =====
-- A forward that is made, and one that the firewall refuses.
use Prim.Native.String.{String}
use virt_pilot.Common.{Bool, true, false, none, [], ◌∷◌, if◌then◌else◌, same, arith, ◌==◌}
use virt_pilot.Forwards.{tcp, NewForward, Firewall, Store, Host, create_port_forward}
use virt_pilot.Forwards.Reserve.{Nat}

-- Tables by the ids whose rules are live; host port 99 is refused half way.
abbrev Tables : Type 0
Tables = String → Bool

abbrev firewall : Firewall Tables
firewall = record {
  add = λ f t. (if f.host_port == 99 then false else true, λ q. if same f.id q then true else t q);
  remove = λ f t q. if same f.id q then false else t q;
  live = λ q t. t q;
  add-others = λ f q t e. ground (arith, e);
  remove-others = λ f q t e. ground (arith, e);
}

abbrev nat : Nat
nat = record {
  is_nat = true;
  gateway = "10.1.0.1";
  has_nic = true;
  only_live = false;
  leases = [];
  current_ip = none;
  usable = "10.1.0.2" ∷ "10.1.0.3" ∷ [];
  accepts = true;
}

abbrev ready : Host
ready = record { knows_nic = true; writes = true; releases = true }

abbrev opts : NewForward
opts = record {
  network_id = "n";
  vm_uuid = "v";
  mac = "52:54:00:00:00:01";
  protocol = tcp;
  host_port = 8080;
  vm_port = 80;
}

abbrev no_tables : Tables
no_tables q = false

abbrev store : Store Tables
store = record { forwards = []; reservations = []; tables = no_tables }

abbrev after : Store Tables
after = (create_port_forward firewall nat ready "f1" opts store).1

abbrev refused_opts : NewForward
refused_opts = record opts { host_port = 99; mac = "52:54:00:00:00:02" }
