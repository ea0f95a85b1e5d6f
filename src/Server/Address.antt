-- ===== src/Server/Address.antt =====
-- server/src/address.rs: whom a connection is attributed to, and how many connections one address may open.
--
-- An address is its number. A text is its ASCII codes, and what the standard library parses from one is a parameter.
-- Tokens are counted as in server/src/abuse.rs: by the nanoseconds that their refill takes.
pub mod Client
pub mod Slots
mod Tests
use dratchet.Base.{
  ℕ, ◌+◌, ◌-◌, ◌*◌, ◌/◌, ◌^◌, Bool, true, false, not, ◌&&◌, ◌||◌, Option, none, some, List, [], ◌∷◌,
  ◌++◌, Bytes, bytes_eq, nat_eq, Eq, ltb, leb, eqb, if◌then◌else◌, min, Map, map, lookup, insert,
  length, filter, any, ◌≡◌, ◌↔◌, arith, Result, ok, err,
}
use dratchet.Base.Actions.{Method}
use dratchet.Server.Abuse.{Limit, full, nanos_per_sec}

pub data IpAddr : Type 0 where
  v4 v6 : ℕ → IpAddr

-- What `str::parse` of the standard library gives for an address and for a `u8`
pub record Parsers : Type 0 where
  pub ip : Bytes → Option IpAddr
  pub u8 : Bytes → Option ℕ

-- `IpAddr::to_canonical`: an IPv4 address that is mapped into IPv6 is that address.
unfoldable pub to_canonical : IpAddr → IpAddr
to_canonical (v4 n) = v4 n
to_canonical (v6 n) = if eqb (n / 2 ^ 32) 0xffff then v4 (n - 0xffff * 2 ^ 32) else v6 n

pub record IpNet : Type 0 where
  pub addr : IpAddr
  pub prefix : ℕ

-- `mask_v4` and `mask_v6`: of an address of `width` bits, the first `prefix` ones
unfoldable pub mask : (width prefix bits : ℕ) → ℕ
mask width prefix bits =
    if eqb prefix 0 then 0 else bits / 2 ^ (width - prefix) * 2 ^ (width - prefix)

abbrev pub same_net : ℕ → IpAddr → IpAddr → Bool
same_net prefix (v4 a) (v4 b) = eqb (mask 32 prefix a) (mask 32 prefix b)
same_net prefix (v6 a) (v6 b) = eqb (mask 128 prefix a) (mask 128 prefix b)
same_net prefix (v4 a) (v6 b) = false
same_net prefix (v6 a) (v4 b) = false

unfoldable pub net_contains : IpNet → IpAddr → Bool
net_contains net ip = same_net net.prefix net.addr (to_canonical ip)

abbrev pub is_whitespace : ℕ → Bool
is_whitespace c = eqb c 32 || leb 9 c && leb c 13

unfoldable pub trim_start : Bytes → Bytes
trim_start [] = []
trim_start (c ∷ text) = let rest = trim_start text in if is_whitespace c then rest else c ∷ text

-- A character before what is left of the text, which it ends if it is a space
abbrev pub keep_char : ℕ → Bytes → Bytes
keep_char c [] = if is_whitespace c then [] else c ∷ []
keep_char c (d ∷ text) = c ∷ d ∷ text

unfoldable pub trim_end : Bytes → Bytes
trim_end [] = []
trim_end (c ∷ text) = keep_char c (trim_end text)

-- `str::trim`
unfoldable pub trim : Bytes → Bytes
trim text = trim_end (trim_start text)

abbrev pub onto_first : ℕ → List Bytes → List Bytes
onto_first c [] = []
onto_first c (part ∷ parts) = (c ∷ part) ∷ parts

-- `str::split` at one character
unfoldable pub split : ℕ → Bytes → List Bytes
split sep [] = [] ∷ []
split sep (c ∷ text) =
    let parts = split sep text in if eqb c sep then [] ∷ parts else onto_first c parts

-- `str::split_once`
unfoldable pub split_once : ℕ → Bytes → Bytes × Option Bytes
split_once sep [] = ([], none)
split_once sep (c ∷ text) =
    let (before, rest) = split_once sep text in
    if eqb c sep then ([], some text) else (c ∷ before, rest)

abbrev pub comma : ℕ
comma = 44

abbrev pub slash : ℕ
slash = 47

abbrev pub max_prefix : IpAddr → ℕ
max_prefix (v4 n) = 32
max_prefix (v6 n) = 128

-- Why a text is no network
pub data NetError : Type 0 where
  not_an_address invalid_prefix : NetError

-- `AddressRefusal`
pub data AddressRefusal : Type 0 where
  too_many_concurrent opening_too_fast : AddressRefusal

abbrev pub reverse : List Bytes → List Bytes
reverse [] = []
reverse (x ∷ xs) = reverse xs ++ x ∷ []

abbrev pub concat_map : (Bytes → List Bytes) → List Bytes → List Bytes
concat_map f [] = []
concat_map f (x ∷ xs) = f x ++ concat_map f xs

unfoldable pub trusts : List IpNet → IpAddr → Bool
trusts proxies ip = any (λ net. net_contains net ip) proxies

-- The entries of all the headers, whose values are those that are text
unfoldable pub hops_of : List Bytes → List Bytes
hops_of values = map trim (concat_map (split comma) values)

module _ (parse : Parsers) where
  unfoldable pub prefix_of : IpAddr → Option Bytes → Result NetError ℕ
  prefix_of addr none = ok (max_prefix addr)
  prefix_of addr (some text) = elim (parse.u8 text) [
    | none ↦ err invalid_prefix
    | some p ↦ if leb p (max_prefix addr) then ok p else err invalid_prefix
  ]

  -- `IpNet::from_str`
  unfoldable pub from_str : Bytes → Result NetError IpNet
  from_str text =
      let (addr, prefix) = split_once slash (trim text) in
      elim (parse.ip addr) [
        | none ↦ err not_an_address
        | some ip ↦ elim (prefix_of (to_canonical ip) prefix) [
          | ok p ↦ ok (record { addr = to_canonical ip; prefix = p })
          | err e ↦ err e
        ]
      ]

  unfoldable pub parse_all : List Bytes → Result NetError (List IpNet)
  parse_all [] = ok []
  parse_all (text ∷ texts) = elim (from_str text) [
    | err e ↦ err e
    | ok net ↦ elim (parse_all texts) [ ok nets ↦ ok (net ∷ nets) | err e ↦ err e ]
  ]

  -- `TrustedProxies::parse_list`
  unfoldable pub parse_list : Bytes → Result NetError (List IpNet)
  parse_list text = parse_all (filter (λ s. not (eqb (length s) 0)) (map trim (split comma text)))

  -- The loop over the hops, the last one first
  unfoldable pub walk_hops : List IpNet → IpAddr → List Bytes → IpAddr
  walk_hops proxies peer [] = peer
  walk_hops proxies peer (hop ∷ hops) =
      let further = walk_hops proxies peer hops in
      elim (parse.ip hop) [
        | none ↦ peer
        | some ip ↦ if trusts proxies (to_canonical ip) then further else to_canonical ip
      ]

  -- `client_ip`: `forwarded` is the values of the headers `X-Forwarded-For`.
  unfoldable pub client_ip : List IpNet → IpAddr → List Bytes → IpAddr
  client_ip proxies peer forwarded =
      let peer' = to_canonical peer in
      if trusts proxies peer' then walk_hops proxies peer' (reverse (hops_of forwarded)) else peer'

pub data AddressKey : Type 0 where
  key_v4 v6_prefix64 : ℕ → AddressKey

abbrev pub beq_key : AddressKey → AddressKey → Bool
beq_key (key_v4 a) (key_v4 b) = eqb a b
beq_key (v6_prefix64 a) (v6_prefix64 b) = eqb a b
beq_key (key_v4 a) (v6_prefix64 b) = false
beq_key (v6_prefix64 a) (key_v4 b) = false

pub beq_key_iff : (a b : AddressKey) → (beq_key a b ≡ true) ↔ (a ≡ b)
beq_key_iff (key_v4 a) (key_v4 b) = ground arith
beq_key_iff (v6_prefix64 a) (v6_prefix64 b) = ground arith
beq_key_iff (key_v4 a) (v6_prefix64 b) = ground arith
beq_key_iff (v6_prefix64 a) (key_v4 b) = ground arith

instance abbrev pub key_eq : Eq AddressKey
key_eq = record { beq = beq_key; decides = beq_key_iff }

-- `AddressKey::of`
unfoldable pub key_of : IpAddr → AddressKey
key_of ip = elim (to_canonical ip) [ v4 n ↦ key_v4 n | v6 n ↦ v6_prefix64 (n / 2 ^ 64) ]

pub record AddressEntry : Type 0 where
  pub active : ℕ
  pub tokens : ℕ
  pub last_refill : ℕ

pub record AddressLimiter : Type 0 where
  pub entries : Map AddressKey AddressEntry
  pub max_concurrent : ℕ
  pub limit : Limit

-- The default limits
abbrev pub max_connections_per_address : ℕ
max_connections_per_address = 32

abbrev pub new_connections_limit : Limit
new_connections_limit = record { capacity = 60; period = nanos_per_sec }

unfoldable pub default_limiter : AddressLimiter
default_limiter = record {
  entries = [];
  max_concurrent = max_connections_per_address;
  limit = new_connections_limit;
}

-- `entry(key).or_insert_with(…)` and its refill
unfoldable pub refilled_entry : Limit → ℕ → Option AddressEntry → AddressEntry
refilled_entry l now none = record { active = 0; tokens = full l; last_refill = now }
refilled_entry l now (some e) = record {
  active = e.active;
  tokens = min (e.tokens + (now - e.last_refill)) (full l);
  last_refill = now;
}

unfoldable pub admit : ℕ → Limit → AddressEntry → Result AddressRefusal (Unit {0}) × AddressEntry
admit max_concurrent l e =
    if leb max_concurrent e.active
    then (err too_many_concurrent, e)
    else if ltb e.tokens l.period
    then (err opening_too_fast, e)
    else (ok tt, record e { tokens = e.tokens - l.period; active = e.active + 1 })

unfoldable pub try_acquire : AddressKey → ℕ → Method AddressRefusal AddressLimiter (Unit {0})
try_acquire key now s =
    let (r, entry) =
      admit s.max_concurrent s.limit (refilled_entry s.limit now (lookup key s.entries)) in
    (r, record s { entries = insert key entry s.entries })

unfoldable pub release : AddressKey → AddressLimiter → AddressLimiter
release key s = elim (lookup key s.entries) [
  | none ↦ s
  | some e ↦ record s { entries = insert key (record e { active = e.active - 1 }) s.entries }
]

unfoldable pub sweep_addresses : ℕ → ℕ → AddressLimiter → ℕ × AddressLimiter
sweep_addresses older_than now s =
    let kept = filter (λ b. ltb 0 b.1.active || ltb (now - b.1.last_refill) older_than) s.entries in
    (length s.entries - length kept, record s { entries = kept })
