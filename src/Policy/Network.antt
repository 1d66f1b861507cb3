-- ===== src/Policy/Network.antt =====
-- The internal address space of src/app/orchestration/policy.py as ranges of numbers.
use sentraxis.Prelude.{ℕ, ◌≤◌, ◌<◌, ◌≡◌, ◌↔◌, ◌⊎◌, false, some, arith}
use sentraxis.Policy.{Ip, v4, v6, is_external}

abbrev Within : ℕ → ℕ → ℕ → Type 0
Within lo hi a = (lo ≤ a) × (a < hi)

-- What the module's documentation calls internal: the addresses of RFC 1918, of loopback, of
-- link-local and of carrier-grade NAT, and for IPv6 the loopback address ::1, the unique local and
-- the link-local addresses.
abbrev pub IsInternal : Ip → Type 0
IsInternal (v4 a) =
    Within 0x0a000000 0x0b000000 a
    ⊎ Within 0xac100000 0xac200000 a
    ⊎ Within 0xc0a80000 0xc0a90000 a
    ⊎ Within 0x7f000000 0x80000000 a
    ⊎ Within 0xa9fe0000 0xa9ff0000 a
    ⊎ Within 0x64400000 0x64800000 a
IsInternal (v6 a) =
    (a ≡ 1)
    ⊎ Within 0xfc000000000000000000000000000000 0xfe000000000000000000000000000000 a
    ⊎ Within 0xfe800000000000000000000000000000 0xfec00000000000000000000000000000 a

-- The IPv6 loopback address.
abbrev pub IsLoopback6 : Ip → Type 0
IsLoopback6 (v4 a) = ⊥
IsLoopback6 (v6 a) = a ≡ 1

-- An address counts as internal exactly when it lies in one of the documented ranges and is not the
-- IPv6 loopback address ::1, which counts as external.
pub is_external-iff-IsInternal :
    (ip : Ip) → (is_external (some ip) ≡ false) ↔ (IsInternal ip × (IsLoopback6 ip → ⊥))
unfolding is_external
is_external-iff-IsInternal (v4 a) = ground arith
is_external-iff-IsInternal (v6 a) = ground arith
