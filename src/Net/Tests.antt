-- ===== src/Net/Tests.antt =====
-- Addresses in each notation, and texts that are refused.
use coredns_updater_plugin.Base.{◌≡◌, refl, none, some, [], ◌∷◌, ◌++◌}
use coredns_updater_plugin.Text.{lit}
use coredns_updater_plugin.Net.{parse_ip, mapped_prefix}

accepts :
    (parse_ip (lit "192.0.2.1") ≡ some (mapped_prefix ++ 192 ∷ 0 ∷ 2 ∷ 1 ∷ []))
    × (parse_ip (lit "2001:db8::1")
        ≡ some (0x20 ∷ 0x01 ∷ 0x0d ∷ 0xb8 ∷ 0 ∷ 0 ∷ 0 ∷ 0 ∷ 0 ∷ 0 ∷ 0 ∷ 0 ∷ 0 ∷ 0 ∷ 0 ∷ 1 ∷ []))
    × (parse_ip (lit "::ffff:1.2.3.4") ≡ some (mapped_prefix ++ 1 ∷ 2 ∷ 3 ∷ 4 ∷ []))
    × (parse_ip (lit "1:2:3:4:5:6:7:8")
        ≡ some (0 ∷ 1 ∷ 0 ∷ 2 ∷ 0 ∷ 3 ∷ 0 ∷ 4 ∷ 0 ∷ 5 ∷ 0 ∷ 6 ∷ 0 ∷ 7 ∷ 0 ∷ 8 ∷ []))
unfolding parse_ip
accepts = (refl, refl, refl, refl)

refuses :
    (parse_ip (lit "192.0.02.1") ≡ none)
    × (parse_ip (lit "256.0.0.1") ≡ none)
    × (parse_ip (lit "1.2.3") ≡ none)
    × (parse_ip (lit "1.2.3.") ≡ none)
    × (parse_ip (lit "1:2:3:4:5:6:7:8::") ≡ none)
    × (parse_ip (lit "fe80::1%eth0") ≡ none)
    × (parse_ip (lit "1::2::3") ≡ none)
    × (parse_ip (lit "host") ≡ none)
unfolding parse_ip
refuses = (refl, refl, refl, refl, refl, refl, refl, refl)
