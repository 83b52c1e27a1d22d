-- ===== src/Webrtc/Network/Private.antt =====
-- Which IPv4 addresses count as private.
use o_camera_agent.Common.{ℕ, ◌+◌, ◌*◌, ◌/◌, ◌^◌, ◌<◌, ◌≡◌, refl, ◌↔◌, ◌⊎◌, true, [], ◌∷◌, arith}
use o_camera_agent.Common.Text.{Bytes}
use o_camera_agent.Webrtc.Network.{is_private_or_link_local_ip}

-- An address as a number, and whether it lies in the block of a network's first bits.
abbrev pub number : ℕ → ℕ → ℕ → ℕ → ℕ
number a b c d = ((a * 256 + b) * 256 + c) * 256 + d

abbrev pub InBlock : ℕ → ℕ → ℕ → Type 0
InBlock base size n = n / size ≡ base / size

-- The blocks 10.0.0.0/8, 172.16.0.0/12, 192.168.0.0/16 and 169.254.0.0/16.
abbrev pub InBlocks : ℕ → Type 0
InBlocks n =
    InBlock (number 10 0 0 0) (2 ^ 24) n
    ⊎ (InBlock (number 172 16 0 0) (2 ^ 20) n
        ⊎ (InBlock (number 192 168 0 0) (2 ^ 16) n ⊎ InBlock (number 169 254 0 0) (2 ^ 16) n))

-- The sixteen bytes of an IPv4-mapped address, in which net.ParseIP gives an IPv4 address.
abbrev pub mapped : Bytes → Bytes
mapped ip4 = 0 ∷ 0 ∷ 0 ∷ 0 ∷ 0 ∷ 0 ∷ 0 ∷ 0 ∷ 0 ∷ 0 ∷ 255 ∷ 255 ∷ ip4

four_bytes_iff :
    (a b c d : ℕ)
    → a < 256
    → b < 256
    → c < 256
    → d < 256
    → (is_private_or_link_local_ip (a ∷ b ∷ c ∷ d ∷ []) ≡ true) ↔ InBlocks (number a b c d)
unfolding is_private_or_link_local_ip
four_bytes_iff a b c d ha hb hc hd = ground arith

mapped_same :
    (a b c d : ℕ)
    → is_private_or_link_local_ip (mapped (a ∷ b ∷ c ∷ d ∷ []))
      ≡ is_private_or_link_local_ip (a ∷ b ∷ c ∷ d ∷ [])
unfolding is_private_or_link_local_ip
mapped_same a b c d = refl

-- An IPv4 address, in four bytes or in the sixteen of net.ParseIP, is private or link-local exactly when
-- it lies in one of the blocks 10.0.0.0/8, 172.16.0.0/12, 192.168.0.0/16 and 169.254.0.0/16.
pub is_private_or_link_local_ip_iff :
    (a b c d : ℕ)
    → a < 256
    → b < 256
    → c < 256
    → d < 256
    → let ip = a ∷ b ∷ c ∷ d ∷ [] in
      let blocks = InBlocks (number a b c d) in
      ((is_private_or_link_local_ip ip ≡ true) ↔ blocks)
      × ((is_private_or_link_local_ip (mapped ip) ≡ true) ↔ blocks)
is_private_or_link_local_ip_iff a b c d ha hb hc hd =
    let four = four_bytes_iff a b c d ha hb hc hd in (four, rw (mapped_same a b c d) four)
