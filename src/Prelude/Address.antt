-- ===== src/Prelude/Address.antt =====
-- Socket addresses: `std::net::SocketAddr`. An address of the fourth version has 4 bytes, one of the
-- sixth 16.
use btget.Prelude.{ℕ, Bool, true, false, ◌&&◌, List, [], ◌∷◌, ◌==◌, if◌then◌else◌, Bytes, bytes_eq}

pub record Address : Type 0 where
  pub ip : Bytes
  pub port : ℕ

unfoldable pub address_eq : Address → Address → Bool
address_eq a b = bytes_eq a.ip b.ip && (a.port == b.port)

unfoldable pub knows : Address → List Address → Bool
unfolding address_eq
knows a [] = false
knows a (b ∷ bs) = if address_eq a b then true else knows a bs
