-- ===== src/Connection/Planning/Order.antt =====
-- The order of the addresses: IPv6 first, the families in turn, each in its own order, and no
-- address lost or made up.
use mathlib.Core.List.{Perm, perm_middle}
use mathlib.Core.List.Perm
use openwire.Base.{
  ℕ, zero, suc, ◌+◌, ◌≤◌, ◌≡◌, refl, ap, List, [], ◌∷◌, ◌++◌, append-nil, arith, length,
}
use openwire.Connection.Planning.{
  SocketAddr, v4, v6, RouteFamily, ipv4, ipv6, ByFamily, group, order_loop, first_family,
  order_for_fast_fallback,
}

-- What the order is to be: one of each in turn, from the first list, then what is left.
pub interleave : List SocketAddr → List SocketAddr → List SocketAddr
interleave [] ys = ys
interleave (x ∷ xs) [] = x ∷ xs
interleave (x ∷ xs) (y ∷ ys) = x ∷ y ∷ interleave xs ys

-- The addresses of one family, in their order.
abbrev pub ipv6_addrs : List SocketAddr → List SocketAddr
ipv6_addrs [] = []
ipv6_addrs (v4 ip port ∷ addrs) = ipv6_addrs addrs
ipv6_addrs (v6 ip port ∷ addrs) = v6 ip port ∷ ipv6_addrs addrs

abbrev pub ipv4_addrs : List SocketAddr → List SocketAddr
ipv4_addrs [] = []
ipv4_addrs (v4 ip port ∷ addrs) = v4 ip port ∷ ipv4_addrs addrs
ipv4_addrs (v6 ip port ∷ addrs) = ipv4_addrs addrs

abbrev queues : List SocketAddr → List SocketAddr → ByFamily
queues xs ys = record { ipv6_queue = xs; ipv4_queue = ys }

group_lem : (addrs : List SocketAddr) → group addrs ≡ queues (ipv6_addrs addrs) (ipv4_addrs addrs)
unfolding group
group_lem [] = refl
group_lem (v4 ip port ∷ addrs) = rw (group_lem addrs)
group_lem (v6 ip port ∷ addrs) = rw (group_lem addrs)

length-families :
    (addrs : List SocketAddr) → length (ipv6_addrs addrs) + length (ipv4_addrs addrs) ≡ length addrs
length-families [] = omega arith
length-families (v4 ip port ∷ addrs) = omega (arith, length-families addrs)
length-families (v6 ip port ∷ addrs) = omega (arith, length-families addrs)

-- With one queue empty the other goes out in order.
order_loop-ipv4 :
    (fuel : ℕ) (family : RouteFamily) (ys : List SocketAddr)
    → length ys ≤ fuel
    → order_loop fuel family (queues [] ys) ≡ ys
unfolding order_loop
order_loop-ipv4 zero family [] h = refl
order_loop-ipv4 zero family (y ∷ ys) h = absurd (omega arith)
order_loop-ipv4 (suc fuel) ipv4 [] h = refl
order_loop-ipv4 (suc fuel) ipv6 [] h = refl
order_loop-ipv4 (suc fuel) ipv4 (y ∷ ys) h = ap (◌∷◌ y) (order_loop-ipv4 fuel ipv6 ys (omega arith))
order_loop-ipv4 (suc fuel) ipv6 (y ∷ ys) h = ap (◌∷◌ y) (order_loop-ipv4 fuel ipv4 ys (omega arith))

order_loop-ipv6 :
    (fuel : ℕ) (family : RouteFamily) (xs : List SocketAddr)
    → length xs ≤ fuel
    → order_loop fuel family (queues xs []) ≡ xs
unfolding order_loop
order_loop-ipv6 zero family [] h = refl
order_loop-ipv6 zero family (x ∷ xs) h = absurd (omega arith)
order_loop-ipv6 (suc fuel) ipv4 [] h = refl
order_loop-ipv6 (suc fuel) ipv6 [] h = refl
order_loop-ipv6 (suc fuel) ipv4 (x ∷ xs) h = ap (◌∷◌ x) (order_loop-ipv6 fuel ipv6 xs (omega arith))
order_loop-ipv6 (suc fuel) ipv6 (x ∷ xs) h = ap (◌∷◌ x) (order_loop-ipv6 fuel ipv4 xs (omega arith))

order_loop-interleave :
    (fuel : ℕ) (xs ys : List SocketAddr)
    → length xs + length ys ≤ fuel
    → order_loop fuel ipv6 (queues xs ys) ≡ interleave xs ys
unfolding interleave order_loop
order_loop-interleave fuel [] ys h = order_loop-ipv4 fuel ipv6 ys (omega arith)
order_loop-interleave fuel (x ∷ xs) [] h = order_loop-ipv6 fuel ipv6 (x ∷ xs) (omega arith)
order_loop-interleave zero (x ∷ xs) (y ∷ ys) h = absurd (omega arith)
order_loop-interleave (suc zero) (x ∷ xs) (y ∷ ys) h = absurd (omega arith)
order_loop-interleave (suc (suc fuel)) (x ∷ xs) (y ∷ ys) h =
    ap (λ l. x ∷ y ∷ l) (order_loop-interleave fuel xs ys (omega arith))

order_loop-first :
    (xs ys : List SocketAddr)
    → order_loop (length xs + length ys) (first_family xs) (queues xs ys) ≡ interleave xs ys
unfolding first_family interleave
order_loop-first [] ys = order_loop-ipv4 (0 + length ys) ipv4 ys (omega arith)
order_loop-first (x ∷ xs) ys =
    order_loop-interleave (suc (length xs) + length ys) (x ∷ xs) ys (omega arith)

-- The loop gives the families in turn, IPv6 first; its rounds are enough.
pub order_for_fast_fallback-interleave :
    (addrs : List SocketAddr)
    → order_for_fast_fallback addrs ≡ interleave (ipv6_addrs addrs) (ipv4_addrs addrs)
unfolding order_for_fast_fallback
order_for_fast_fallback-interleave addrs =
    rw (group_lem addrs, ← length-families addrs)
      (order_loop-first (ipv6_addrs addrs) (ipv4_addrs addrs))

interleave-perm : (xs ys : List SocketAddr) → Perm (interleave xs ys) (xs ++ ys)
unfolding interleave
interleave-perm [] ys = Perm.refl ys
interleave-perm (x ∷ xs) [] = rw append-nil (Perm.refl (x ∷ xs))
interleave-perm (x ∷ xs) (y ∷ ys) =
    Perm.cons x (Perm.trans (Perm.cons y (interleave-perm xs ys)) (Perm.symm (perm_middle xs ys)))

families-perm : (addrs : List SocketAddr) → Perm (ipv6_addrs addrs ++ ipv4_addrs addrs) addrs
families-perm [] = Perm.refl []
families-perm (v4 ip port ∷ addrs) =
    Perm.trans (perm_middle (ipv6_addrs addrs) (ipv4_addrs addrs))
      (Perm.cons (v4 ip port) (families-perm addrs))
families-perm (v6 ip port ∷ addrs) = Perm.cons (v6 ip port) (families-perm addrs)

-- The order has every address that was resolved, as often as it was there.
pub order_for_fast_fallback-perm :
    (addrs : List SocketAddr) → Perm (order_for_fast_fallback addrs) addrs
order_for_fast_fallback-perm addrs =
    rw (order_for_fast_fallback-interleave addrs)
      (Perm.trans (interleave-perm (ipv6_addrs addrs) (ipv4_addrs addrs)) (families-perm addrs))
