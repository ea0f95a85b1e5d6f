-- ===== src/Server/Address/Client.antt =====
-- server/src/address.rs: headers that a client writes itself do not change whom it is taken for.
use mathlib.Core.List.{append_assoc}
use dratchet.Base.{
  ◌≡◌, refl, ap, ◌∙◌, Bool, true, false, none, some, List, [], ◌∷◌, ◌++◌, Bytes, arith, all,
  all-append,
}
use dratchet.Server.Address.{
  IpAddr, IpNet, Parsers, to_canonical, trusts, walk_hops, hops_of, client_ip, reverse,
}

reverse-append :
    (xs : List Bytes) (hop : Bytes) (ys : List Bytes)
    → reverse (xs ++ hop ∷ ys) ≡ reverse ys ++ hop ∷ reverse xs
reverse-append [] hop ys = refl
reverse-append (x ∷ xs) hop ys =
    rw (reverse-append xs hop ys) (append_assoc (reverse ys) (hop ∷ reverse xs) (x ∷ []))

all-reverse : (p : Bytes → Bool) (xs : List Bytes) → all p (reverse xs) ≡ all p xs
unfolding all
all-reverse p [] = refl
all-reverse p (x ∷ xs) = all-append p (reverse xs) (x ∷ []) ∙ ground (arith, all-reverse p xs)

module _ (parse : Parsers) (proxies : List IpNet) where
  -- The entry of a proxy that is trusted
  abbrev pub is_relay : Bytes → Bool
  is_relay hop = elim (parse.ip hop) [ none ↦ false | some ip ↦ trusts proxies (to_canonical ip) ]

  walk_hops_past :
      (peer : IpAddr) (relays rest : List Bytes)
      → all is_relay relays ≡ true
      → walk_hops parse proxies peer (relays ++ rest) ≡ walk_hops parse proxies peer rest
  unfolding walk_hops all
  walk_hops_past peer [] rest h = refl
  walk_hops_past peer (hop ∷ relays) rest h = ground (arith, walk_hops_past peer relays rest)

  walk_hops_found :
      (peer ip : IpAddr) (hop : Bytes) (rest : List Bytes)
      → parse.ip hop ≡ some ip
      → trusts proxies (to_canonical ip) ≡ false
      → walk_hops parse proxies peer (hop ∷ rest) ≡ to_canonical ip
  unfolding walk_hops
  walk_hops_found peer ip hop rest parsed foreign = ground (arith, parsed, foreign)

  -- A connection that does not come from a trusted proxy is attributed to its own address, whatever
  -- headers it sends.
  pub client_ip_direct :
      (peer : IpAddr) (forwarded : List Bytes)
      → trusts proxies (to_canonical peer) ≡ false
      → client_ip parse proxies peer forwarded ≡ to_canonical peer
  unfolding client_ip
  client_ip_direct peer forwarded direct = ground (arith, direct)

  -- A connection that comes through trusted proxies is attributed to the address that the first of them
  -- saw: the entries after that one are all of trusted proxies, and those before it, which the client
  -- may have written, change nothing.
  pub client_ip_forwarded :
      (peer ip : IpAddr) (forwarded claimed relays : List Bytes) (hop : Bytes)
      → trusts proxies (to_canonical peer) ≡ true
      → hops_of forwarded ≡ claimed ++ hop ∷ relays
      → parse.ip hop ≡ some ip
      → trusts proxies (to_canonical ip) ≡ false
      → all is_relay relays ≡ true
      → client_ip parse proxies peer forwarded ≡ to_canonical ip
  unfolding client_ip
  client_ip_forwarded peer ip forwarded claimed relays hop via hops parsed foreign relayed =
      rw (via, client_ip)
        (ap (λ hops. walk_hops parse proxies (to_canonical peer) (reverse hops)) hops
          ∙ ap (walk_hops parse proxies (to_canonical peer)) (reverse-append claimed hop relays)
          ∙ walk_hops_past (to_canonical peer) (reverse relays) (hop ∷ reverse claimed)
              (all-reverse is_relay relays ∙ relayed)
          ∙ walk_hops_found (to_canonical peer) ip hop (reverse claimed) parsed foreign)
