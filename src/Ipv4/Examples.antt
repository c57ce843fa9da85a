-- ===== src/Ipv4/Examples.antt =====
-- The theorems on addresses at concrete ones, and the program's functions on some texts.
use mapper.Prelude.{
  ◌+◌, ◌-◌, ◌%◌, ◌^◌, ◌≤◌, ◌<◌, ◌≡◌, refl, ◌&&◌, ◌==◌, true, false, none, some, leb, if◌then◌else◌,
  arith,
}
use mapper.Text.{codes, group, literal, at_end, number, decimal}
use mapper.Ipv4.{
  ip4octets, v4oct2long, v4ip2long, v4long2ip, match_octets, match_cidr, cidr_valid, ip4net,
  net_mask_wc, wildcard,
}
use mapper.Ipv4.Dotted.{v4ip2long-v4long2ip, v4ip2long_normalises, ip4octets-v4oct2long}
use mapper.Ipv4.Networks.{slashed, cidr_valid-slashed, ip4net_lem, ip4net_network}

parse_home : v4ip2long (codes "192.168.001.010") ≡ some 3232235786
unfolding v4ip2long match_octets group literal at_end number v4oct2long
parse_home = refl

parse_errors :
    (v4ip2long (codes "192.168.1.256") ≡ none)
    × (v4ip2long (codes "192.168.1.") ≡ none)
    × (v4ip2long (codes "192.168.1.1/24") ≡ none)
    × (v4ip2long (codes "0192.168.1.1") ≡ none)
unfolding v4ip2long match_octets group literal at_end number v4oct2long
parse_errors = (refl, refl, refl, refl)

print_mask : net_mask_wc 167772160 8 ≡ codes "10.0.0.0/8 (255.0.0.0 0.255.255.255)"
unfolding net_mask_wc v4long2ip decimal wildcard
print_mask = refl

valid_networks :
    (cidr_valid (codes "10.0.0.0/8") ≡ true)
    × (cidr_valid (codes "10.0.0.1/8") ≡ false)
    × (cidr_valid (codes "10.0.0.0/33") ≡ false)
    × (cidr_valid (codes "10.0.0.0") ≡ false)
unfolding cidr_valid match_cidr match_octets group literal at_end number v4oct2long
valid_networks = (refl, refl, refl, refl)

v4ip2long-v4long2ip_instance : v4ip2long (v4long2ip 3232235786) ≡ some 3232235786
v4ip2long-v4long2ip_instance = v4ip2long-v4long2ip 3232235786 (omega arith)

v4ip2long_normalises_instance :
    (3232235786 < 2 ^ 32) × (v4ip2long (v4long2ip 3232235786) ≡ some 3232235786)
v4ip2long_normalises_instance = v4ip2long_normalises (codes "192.168.001.010") 3232235786 parse_home

ip4octets-v4oct2long_instance :
    ip4octets (v4oct2long 10 0 0 255) ≡ record { o3 = 10; o2 = 0; o1 = 0; o0 = 255 }
ip4octets-v4oct2long_instance =
    ip4octets-v4oct2long 10 0 0 255 (omega arith) (omega arith) (omega arith) (omega arith)

cidr_valid-slashed_example :
    cidr_valid (slashed 167772160 8) ≡ (leb 8 32 && (167772160 % 2 ^ (32 - 8) == 0))
cidr_valid-slashed_example = cidr_valid-slashed 167772160 8 (omega arith) (omega arith)

ip4net_lem_instance :
    ip4net 167772165 8 ≡ (if leb 8 32 then some (167772165 - 167772165 % 2 ^ (32 - 8)) else none)
ip4net_lem_instance = ip4net_lem 167772165 8 (omega arith)

net_of_host : ip4net 167772165 8 ≡ some 167772160
unfolding ip4net
net_of_host = refl

ip4net_network_instance :
    (167772160 ≤ 167772165)
    × (167772165 < 167772160 + 2 ^ (32 - 8))
    × (ip4net 167772160 8 ≡ some 167772160)
    × (cidr_valid (slashed 167772160 8) ≡ true)
ip4net_network_instance = ip4net_network 167772165 8 167772160 (omega arith) net_of_host
