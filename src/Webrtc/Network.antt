-- ===== src/Webrtc/Network.antt =====
-- webrtc.go: what the log says of an address, the classes of addresses, and the selected ICE pair.
pub mod Private
pub mod Redacted
use o_camera_agent.Common.{
  ℕ, zero, suc, ◌+◌, ◌*◌, ◌/◌, ◌%◌, Bool, true, false, not, ◌&&◌, ◌||◌, if◌then◌else◌, ltb, leb,
  ◌==◌, List, [], ◌∷◌, ◌++◌, Option, none, some, length, take, drop,
}
use o_camera_agent.Common.Text.{Bytes, codes, same, index}
use o_camera_agent.Common.Split.{last_index}

-- redactURL. Without an "@" its index is -1, before every scheme.
unfoldable pub redact_url : Bytes → Bytes
unfolding index last_index
redact_url raw = elim (index raw (codes "://")) [
  | none ↦ raw
  | some scheme ↦ elim (last_index b'@' raw) [
    | none ↦ raw
    | some sign ↦
        if ltb sign scheme
        then raw
        else take (scheme + 3) raw ++ codes "***@" ++ drop (sign + 1) raw
  ]
]

-- ip.To4: four bytes, or the sixteen of an IPv4-mapped address.
unfoldable pub to4 : Bytes → Option Bytes
unfolding same
to4 ip =
    if length ip == 4
    then some ip
    else if length ip == 16
        && same (take 12 ip) (0 ∷ 0 ∷ 0 ∷ 0 ∷ 0 ∷ 0 ∷ 0 ∷ 0 ∷ 0 ∷ 0 ∷ 255 ∷ 255 ∷ [])
    then some (drop 12 ip)
    else none

-- ip.IsPrivate and ip.IsLinkLocalUnicast of an address that is not IPv4: fc00::/7 and fe80::/10.
abbrev is_private_ip6 : Bytes → Bool
is_private_ip6 (a ∷ b ∷ rest) = a / 2 == 126 || (a == 254 && b / 64 == 2)
is_private_ip6 _ = false

-- The `switch` on the bytes of an IPv4 address.
abbrev is_private_ip4 : Bytes → Bool
is_private_ip4 (a ∷ b ∷ rest) =
    if a == 10
    then true
    else if a == 172 && leb 16 b && leb b 31
    then true
    else if a == 192 && b == 168
    then true
    else if a == 169 && b == 254
    then true
    else false
is_private_ip4 _ = false

unfoldable pub is_private_or_link_local_ip : Bytes → Bool
unfolding to4
is_private_or_link_local_ip ip = elim (to4 ip) [
  | some ip4 ↦ is_private_ip4 ip4
  | none ↦ length ip == 16 && is_private_ip6 ip
]

-- a & b, of bytes
unfoldable pub bit_and : ℕ → ℕ → ℕ → ℕ
bit_and zero a b = 0
bit_and (suc bits) a b = a % 2 * (b % 2) + 2 * bit_and bits (a / 2) (b / 2)

-- net.IPNet
pub record IpNet : Type 0 where
  pub ip : Bytes
  pub mask : Bytes

-- Whether addresses are equal under a mask of their length.
unfoldable pub agree : Bytes → Bytes → Bytes → Bool
unfolding bit_and
agree [] [] [] = true
agree (m ∷ ms) (a ∷ xs) (b ∷ ys) = bit_and 8 a m == bit_and 8 b m && agree ms xs ys
agree _ _ _ = false

abbrev as_ip4 : Bytes → Bytes
as_ip4 ip = elim (to4 ip) [ some ip4 ↦ ip4 | none ↦ ip ]

-- The mask for an address of this length.
abbrev mask_for : ℕ → Bytes → Bytes
mask_for n mask = if n == 4 && length mask == 16 then drop 12 mask else mask

-- ipNet.Contains
unfoldable pub contains_ip : IpNet → Bytes → Bool
unfolding to4 agree
contains_ip net ip = let n = as_ip4 net.ip in agree (mask_for (length n) net.mask) n (as_ip4 ip)

-- net.Interface with its addresses, `none` when they cannot be read; an address of another type is
-- `none`.
pub record Interface : Type 0 where
  pub is_up : Bool
  pub is_loopback : Bool
  pub addrs : Option (List (Option IpNet))

abbrev is_ip4 : Bytes → Bool
is_ip4 ip = elim (to4 ip) [ some x ↦ true | none ↦ false ]

-- Both or none of them are IPv4.
abbrev pub same_family : Bytes → Bytes → Bool
same_family a b = if is_ip4 a then is_ip4 b else not (is_ip4 b)

unfoldable pub in_addrs : Bytes → List (Option IpNet) → Bool
unfolding to4 contains_ip
in_addrs ip [] = false
in_addrs ip (none ∷ addrs) = in_addrs ip addrs
in_addrs ip (some net ∷ addrs) =
    let rest = in_addrs ip addrs in
    if same_family net.ip ip && contains_ip net ip then true else rest

unfoldable pub in_interfaces : Bytes → List Interface → Bool
unfolding in_addrs
in_interfaces ip [] = false
in_interfaces ip (i ∷ is) =
    let rest = in_interfaces ip is in
    if not i.is_up || i.is_loopback
    then rest
    else (elim i.addrs [ none ↦ rest | some addrs ↦ if in_addrs ip addrs then true else rest ])

-- `none` when the interfaces cannot be read.
unfoldable pub is_in_local_subnet : Option (List Interface) → Bytes → Bool
unfolding in_interfaces
is_in_local_subnet none ip = false
is_in_local_subnet (some ifaces) ip = in_interfaces ip ifaces

-- A candidate of the pair: its address, what net.ParseIP makes of it, and whether its type is host.
pub record PairEnd : Type 0 where
  pub address : Bytes
  pub ip : Option Bytes
  pub is_host : Bool

-- GetSelectedCandidatePair of a transport: an error, no pair, or a pair, with ends that may be nil.
pub data Selected : Type 0 where
  unreadable absent : Selected
  pair : Option PairEnd → Option PairEnd → Selected

-- getSelectedICECandidatePair. A transport that is nil is `none`; the last is that of SCTP.
unfoldable pub get_selected_ice_candidate_pair : List (Option Selected) → Option Selected → Selected
get_selected_ice_candidate_pair [] none = absent
get_selected_ice_candidate_pair [] (some sctp) = sctp
get_selected_ice_candidate_pair (none ∷ senders) sctp = get_selected_ice_candidate_pair senders sctp
get_selected_ice_candidate_pair (some unreadable ∷ senders) sctp = unreadable
get_selected_ice_candidate_pair (some absent ∷ senders) sctp =
    get_selected_ice_candidate_pair senders sctp
get_selected_ice_candidate_pair (some (pair local remote) ∷ senders) sctp = pair local remote

-- What the log says of the pair: nothing, or whether both ends are in the same network.
pub data PairLog : Type 0 where
  cannot_read not_available : PairLog
  unknown_network : PairEnd → PairEnd → PairLog
  same_network : PairEnd → PairEnd → Bool → PairLog

unfoldable pub is_same_network : Option (List Interface) → PairEnd → PairEnd → Bytes → Bool
unfolding is_private_or_link_local_ip is_in_local_subnet
is_same_network ifaces local remote remote_ip =
    local.is_host
    && remote.is_host
    && is_private_or_link_local_ip remote_ip
    && is_in_local_subnet ifaces remote_ip

abbrev log_ends : Option (List Interface) → PairEnd → PairEnd → PairLog
log_ends ifaces local remote = elim remote.ip [
  | none ↦ unknown_network local remote
  | some remote_ip ↦ elim local.ip [
    | none ↦ unknown_network local remote
    | some local_ip ↦ same_network local remote (is_same_network ifaces local remote remote_ip)
  ]
]

-- logSelectedICEPairNetwork
unfoldable pub log_selected_ice_pair_network : Option (List Interface) → Selected → PairLog
unfolding is_same_network
log_selected_ice_pair_network ifaces unreadable = cannot_read
log_selected_ice_pair_network ifaces absent = not_available
log_selected_ice_pair_network ifaces (pair (some local) (some remote)) =
    log_ends ifaces local remote
log_selected_ice_pair_network ifaces (pair local remote) = not_available
