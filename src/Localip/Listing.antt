-- ===== src/Localip/Listing.antt =====
-- What a listing holds, and when a filter accepts an interface.
use mathlib.Core.List.{Memᴰ}
use mathlib.Core.List.Memᴰ.{cast}
use proto_ip.Prelude.{
  Bool, List, Option-cases, [], any, any→mem, arith, beq_refl, beq→eq, false, inl, inr, is_empty,
  list_eq, mem→any, nat_beq_iff, nat_eq, not, refl, some, sym, true, ◌&&◌, ◌==◌, ◌>>=◌, ◌↔◌, ◌∷◌,
  ◌≡◌, ◌≢◌,
}
use proto_ip.Golang.NetIp.{NetIp}
use proto_ip.Golang.Text.{Text}
use proto_ip.Localip.{
  NetInterface, accepts, addrs_or_nil, cidrs_of, classify, has_class, has_name, ip_from_proto,
  is_routable, is_up, routable_address,
}
use proto_ip.Messages.Ip.{Cidr}
use proto_ip.Messages.Local.{Interface, InterfaceClass, LookupFilter, class_number}

-- The interface that `convertInterface` makes; it never fails.
pub converted : (NetIp → Text) → (Text → Text) → NetInterface → Interface
converted ip_string unicode ni = record {
  class = classify unicode ni;
  name = ni.name;
  hardware_address = ni.hardware_addr;
  addresses = cidrs_of ip_string (addrs_or_nil ni.addrs);
  up = is_up ni.flags;
}

-- The interface meets each condition that the filter sets.
pub record Meets (f : LookupFilter) (iface : Interface) : Type 0 where
  pub class_of :
      f.classes ≢ []
      → (c : InterfaceClass) × Memᴰ c f.classes × (class_number c ≡ class_number iface.class)
  pub name_of : f.names ≢ [] → Memᴰ iface.name f.names
  pub routable :
      f.only_routable ≡ true
      → (c : Cidr) × (ip : NetIp) × Memᴰ c iface.addresses
        × (ip_from_proto c.ip ≡ some ip)
        × (is_routable ip ≡ true)

routable_address-ip :
    (c : Cidr)
    → routable_address c ≡ true
    → (ip : NetIp) × (ip_from_proto c.ip ≡ some ip) × (is_routable ip ≡ true)
unfolding routable_address
routable_address-ip c h = elim (Option-cases (ip_from_proto c.ip)) [
  | inl e ↦ absurd (ground arith)
  | inr (ip, e) ↦ (ip, e, ground arith)
]

accepts→Meets :
    (f : LookupFilter) (iface : Interface) → accepts (some f) iface ≡ true → Meets f iface
unfolding accepts has_class has_name
accepts→Meets f iface h = record {
  class_of = λ ne.
      let (c, m, e) =
        any→mem (λ d. class_number d == class_number iface.class) f.classes (ground arith) in
      (c, m, beq→eq _ _ e);
  name_of = λ ne.
      let (n, m, e) = any→mem (λ m. m == iface.name) f.names (ground arith) in
      cast (sym (beq→eq n iface.name e)) m;
  routable = λ wanted.
      let (c, m, e) = any→mem routable_address iface.addresses (ground arith) in
      let (ip, p, q) = routable_address-ip c e in (c, ip, m, p, q);
}

class_passes :
    (cs : List InterfaceClass) (c : InterfaceClass)
    → (cs ≢ [] → (d : InterfaceClass) × Memᴰ d cs × (class_number d ≡ class_number c))
    → (not (is_empty cs) && not (has_class cs c)) ≡ false
unfolding has_class
class_passes [] c h = refl
class_passes (x ∷ cs) c h =
    let (d, m, e) = h (λ e. cc) in
    ground (arith, mem→any (λ d. class_number d == class_number c) m ((nat_beq_iff _ _).1 e))

name_passes :
    (ns : List Text) (n : Text)
    → (ns ≢ [] → Memᴰ n ns)
    → (not (is_empty ns) && not (has_name ns n)) ≡ false
unfolding has_name
name_passes [] n h = refl
name_passes (x ∷ ns) n h = ground (arith, mem→any (λ m. m == n) (h (λ e. cc)) (beq_refl n))

routable_passes :
    (only : Bool) (cs : List Cidr)
    → (only ≡ true
        → (c : Cidr) × (ip : NetIp) × Memᴰ c cs
          × (ip_from_proto c.ip ≡ some ip)
          × (is_routable ip ≡ true))
    → (only && not (any routable_address cs)) ≡ false
unfolding routable_address
routable_passes false cs h = refl
routable_passes true cs h =
    let (c, ip, m, p, q) = h refl in ground (arith, mem→any routable_address m (ground arith))

Meets→accepts :
    (f : LookupFilter) (iface : Interface) → Meets f iface → accepts (some f) iface ≡ true
unfolding accepts
Meets→accepts f iface m = rw (
  class_passes f.classes iface.class m.class_of,
  name_passes f.names iface.name m.name_of,
  routable_passes f.only_routable iface.addresses m.routable,
)

-- A filter accepts an interface exactly if the interface meets every condition that the filter
-- sets: one of its classes, one of its names, an address that is routable.
pub accepts_iff :
    (f : LookupFilter) (iface : Interface) → (accepts (some f) iface ≡ true) ↔ Meets f iface
accepts_iff f iface = (accepts→Meets f iface, Meets→accepts f iface)
