-- ===== src/Server/Address/Tests.antt =====
-- Runs of the limits by address: a client behind a trusted proxy, and a connection that opens.
use dratchet.Base.{
  ℕ, ◌≡◌, refl, true, false, none, some, [], ◌∷◌, Bytes, ◌==◌, bytes_eq, codes, if◌then◌else◌,
}
use dratchet.Server.Address.{
  IpAddr, v4, IpNet, Parsers, AddressKey, key_v4, client_ip, default_limiter, try_acquire,
  to_canonical,
}
use dratchet.Server.Address.Client.{client_ip_forwarded}
use dratchet.Server.Address.Slots.{
  System, IsBalanced, opens, at_start, by_step, Reachable-IsBalanced,
}

-- The two addresses that the run meets
abbrev parsers : Parsers
parsers = record {
  ip = λ text.
      if text == codes "10.0.0.1"
      then some (v4 0x0a000001)
      else if text == codes "1.2.3.4"
      then some (v4 0x01020304)
      else none;
  u8 = λ text. none;
}

abbrev inside : IpNet
inside = record { addr = v4 0x0a000000; prefix = 8 }

client_ip_forwarded_example :
    client_ip parsers
      (inside ∷ [])
      (v4 0x0a000002)
      (codes "8.8.8.8, 1.2.3.4" ∷ codes "10.0.0.1" ∷ [])
    ≡ v4 0x01020304
unfolding dratchet.Server.Address.trusts dratchet.Base.any dratchet.Server.Address.net_contains
    to_canonical dratchet.Server.Address.mask dratchet.Server.Address.hops_of
    dratchet.Server.Address.split dratchet.Server.Address.trim dratchet.Server.Address.trim_end
    dratchet.Server.Address.trim_start dratchet.Base.bytes_beq dratchet.Base.all
client_ip_forwarded_example =
    client_ip_forwarded parsers (inside ∷ []) (v4 0x0a000002) (v4 0x01020304)
      (codes "8.8.8.8, 1.2.3.4" ∷ codes "10.0.0.1" ∷ []) (codes "8.8.8.8" ∷ [])
      (codes "10.0.0.1" ∷ []) (codes "1.2.3.4") refl refl refl refl refl

abbrev opened : System
opened = ((try_acquire (key_v4 7) 0 default_limiter).1, key_v4 7 ∷ [])

Reachable-IsBalanced_example : IsBalanced opened
unfolding default_limiter try_acquire dratchet.Server.Address.admit
    dratchet.Server.Address.refilled_entry dratchet.Base.lookup
Reachable-IsBalanced_example =
    Reachable-IsBalanced default_limiter opened refl
      (by_step at_start (opens {s = default_limiter} {held = []} (key_v4 7) 0 refl))
