-- ===== src/Api/Submit/Validation/Ranges.antt =====
-- Which IPv4 addresses src/api/submit/validation.rs calls private or local, as blocks of addresses.
use unlimited_ocr_server.Prelude.{ℕ, ◌+◌, ◌-◌, ◌*◌, ◌^◌, ◌/◌, ◌<◌, ◌≡◌, ◌↔◌, ◌⊎◌, true, arith}
use unlimited_ocr_server.Api.Submit.IpAddr.{Ipv4Addr}
use unlimited_ocr_server.Api.Submit.Validation.{ipv4_is_private_or_local}

-- The address as a number of 32 bits.
abbrev pub to_u32 : Ipv4Addr → ℕ
to_u32 ip = ip.a * 2 ^ 24 + ip.b * 2 ^ 16 + ip.c * 2 ^ 8 + ip.d

-- `address / 2 ^ (32 - bits)` is the network that CIDR writes before a slash.
abbrev pub InBlock : (network bits address : ℕ) → Type 0
InBlock network bits address = address / 2 ^ bits ≡ network

abbrev pub IsReserved : ℕ → Type 0
IsReserved n =
    InBlock 0 24 n  -- 0.0.0.0/8
    ⊎ InBlock 10 24 n  -- 10.0.0.0/8
    ⊎ InBlock 127 24 n  -- 127.0.0.0/8
    ⊎ InBlock (169 * 256 + 254) 16 n  -- 169.254.0.0/16
    ⊎ InBlock (172 * 16 + 1) 20 n  -- 172.16.0.0/12
    ⊎ InBlock (192 * 256 + 168) 16 n  -- 192.168.0.0/16
    ⊎ InBlock (192 * 65536 + 2) 8 n  -- 192.0.2.0/24
    ⊎ InBlock (198 * 65536 + 51 * 256 + 100) 8 n  -- 198.51.100.0/24
    ⊎ InBlock (203 * 65536 + 113) 8 n  -- 203.0.113.0/24
    ⊎ (n ≡ 2 ^ 32 - 1)  -- 255.255.255.255

-- An address of four octets counts as private or local exactly if it lies in one of these blocks.
pub ipv4_is_private_or_local_iff :
    (ip : Ipv4Addr)
    → ip.a < 256
    → ip.b < 256
    → ip.c < 256
    → ip.d < 256
    → (ipv4_is_private_or_local ip ≡ true) ↔ IsReserved (to_u32 ip)
unfolding ipv4_is_private_or_local
ipv4_is_private_or_local_iff ip a b c d = ground arith
