-- ===== src/Net.antt =====
-- `std::net`: addresses as their octets, and the equality by which they serve as keys.
use lapdev.Base.{ℕ, ◌≡◌, ◌↔◌, Bool, true, false, ◌&&◌, List, [], ◌∷◌, arith, Key, nat_eq}

pub record Ipv4Addr : Type 0 where
  pub a : ℕ
  pub b : ℕ
  pub c : ℕ
  pub d : ℕ

pub data IpAddr : Type 0 where
  v4 : Ipv4Addr → IpAddr
  v6 : List ℕ → IpAddr

pub record SocketAddr : Type 0 where
  pub ip : IpAddr
  pub port : ℕ

abbrev pub same_octets : List ℕ → List ℕ → Bool
same_octets [] [] = true
same_octets (x ∷ xs) (y ∷ ys) = nat_eq x y && same_octets xs ys
same_octets _ _ = false

pub same_octets_iff : (xs ys : List ℕ) → (same_octets xs ys ≡ true) ↔ (xs ≡ ys)
same_octets_iff [] [] = ground arith
same_octets_iff [] (y ∷ ys) = ground arith
same_octets_iff (x ∷ xs) [] = ground arith
same_octets_iff (x ∷ xs) (y ∷ ys) = ground (arith, same_octets_iff xs ys)

abbrev pub same_ip : IpAddr → IpAddr → Bool
same_ip (v4 x) (v4 y) = nat_eq x.a y.a && nat_eq x.b y.b && nat_eq x.c y.c && nat_eq x.d y.d
same_ip (v6 xs) (v6 ys) = same_octets xs ys
same_ip _ _ = false

pub same_ip_iff : (p q : IpAddr) → (same_ip p q ≡ true) ↔ (p ≡ q)
same_ip_iff (v4 x) (v4 y) = ground arith
same_ip_iff (v4 x) (v6 ys) = ground arith
same_ip_iff (v6 xs) (v4 y) = ground arith
same_ip_iff (v6 xs) (v6 ys) = ground (arith, same_octets_iff xs ys)

instance abbrev pub ip_key : Key IpAddr
ip_key = record { same = same_ip; same_iff = same_ip_iff }

abbrev pub same_socket : SocketAddr → SocketAddr → Bool
same_socket p q = same_ip p.ip q.ip && nat_eq p.port q.port

pub same_socket_iff : (p q : SocketAddr) → (same_socket p q ≡ true) ↔ (p ≡ q)
same_socket_iff p q = ground (arith, same_ip_iff p.ip q.ip)

instance abbrev pub socket_key : Key SocketAddr
socket_key = record { same = same_socket; same_iff = same_socket_iff }
