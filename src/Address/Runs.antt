-- ===== src/Address/Runs.antt =====
-- The pool of 10.0.0.0/29, with the server at the first address.
use ftpn.Address.{ipv4_generator, next_address, fill_free}
use ftpn.Prelude.{ℕ, ◌^◌, ◌≡◌, refl, List, [], ◌∷◌}

abbrev net4 : ℕ
net4 = 167772160

abbrev pool4 : List ℕ
pool4 = fill_free (2 ^ 32) 167772161 6 (ipv4_generator net4 29) []

pool4_addresses : pool4 ≡ 167772166 ∷ 167772165 ∷ 167772164 ∷ 167772163 ∷ 167772162 ∷ []
unfolding fill_free next_address ipv4_generator
pool4_addresses = refl
