-- ===== src/Mdns/Sockets.antt =====
-- `CMDns::open_client_sockets` of gui-app/src/Utils/mDNS/mDns.cpp, as it is compiled on Linux. The
-- interfaces come from `getifaddrs`, and opening a socket is a parameter.
use sane_in_the_membrane.Common.{
  ℕ, suc, ◌≤◌, ◌≡◌, refl, ap, ◌∙◌, sym, Bool, true, not, List, [], ◌∷◌, ◌++◌, Option, none, some,
  ltb, ◌==◌, ◌&&◌, ◌||◌, if◌then◌else◌, length, length-append, take, take-all, take-append,
  take-take_append, length-take, arith, Bool-cases, inl, inr, append-nil, append_assoc, ltb→lt,
}

-- A 32-bit IPv4 address, or a 128-bit IPv6 address with its scope; another family is not read.
pub data SocketAddress : Type 0 where
  inet : ℕ → SocketAddress
  inet6 : ℕ → ℕ → SocketAddress
  other_family : SocketAddress

pub record Interface : Type 0 where
  pub address : Option SocketAddress
  pub is_up : Bool
  pub is_multicast : Bool
  pub is_loopback : Bool
  pub is_point_to_point : Bool

abbrev pub loopback : ℕ
loopback = 0x7f000001

abbrev pub localhost : ℕ
localhost = 1

abbrev pub localhost_mapped : ℕ
localhost_mapped = 0xffff7f000001

-- The fields that the loop writes; the addresses are those of the first interface of each family.
pub record Sockets : Type 0 where
  pub sockets : List ℕ
  pub has_ipv4 : Bool
  pub has_ipv6 : Bool
  pub service_address_ipv4 : Option ℕ
  pub service_address_ipv6 : Option ℕ

abbrev pub first_of : Option ℕ → ℕ → Option ℕ
first_of none a = some a
first_of (some old) a = some old

abbrev pub push_socket : Option ℕ → List ℕ → List ℕ
push_socket none sockets = sockets
push_socket (some socket) sockets = sockets ++ (socket ∷ [])

-- The four tests at the head of the loop.
abbrev pub is_skipped : Interface → Bool
is_skipped i = (not i.is_up || not i.is_multicast) || (i.is_loopback || i.is_point_to_point)

module _ (socket_open : SocketAddress → Option ℕ) (max_sockets : ℕ) where
  open_socket : SocketAddress → List ℕ → List ℕ
  open_socket a sockets =
      if ltb (length sockets) max_sockets then push_socket (socket_open a) sockets else sockets

  visit_address : SocketAddress → Sockets → Sockets
  unfolding open_socket
  visit_address (inet a) s = if a == loopback then s else record s {
    service_address_ipv4 = first_of s.service_address_ipv4 a;
    has_ipv4 = true;
    sockets = open_socket (inet a) s.sockets;
  }
  visit_address (inet6 a scope) s =
      if not (scope == 0)
      then s
      else if (a == localhost) || (a == localhost_mapped)
      then s
      else record s {
        service_address_ipv6 = first_of s.service_address_ipv6 a;
        has_ipv6 = true;
        sockets = open_socket (inet6 a scope) s.sockets;
      }
  visit_address other_family s = s

  visit_interface : Option SocketAddress → Interface → Sockets → Sockets
  unfolding visit_address
  visit_interface none i s = s
  visit_interface (some a) i s = if is_skipped i then s else visit_address a s

  unfoldable pub open_loop : List Interface → Sockets → Sockets
  unfolding visit_interface
  open_loop [] s = s
  open_loop (i ∷ interfaces) s = open_loop interfaces (visit_interface i.address i s)

  -- Reference: the addresses worth a socket.
  abbrev pub usable_address : SocketAddress → List SocketAddress
  usable_address (inet a) = if a == loopback then [] else inet a ∷ []
  usable_address (inet6 a scope) =
      if (scope == 0) && not ((a == localhost) || (a == localhost_mapped))
      then inet6 a scope ∷ []
      else []
  usable_address other_family = []

  abbrev pub usable : Option SocketAddress → Interface → List SocketAddress
  usable none i = []
  usable (some a) i = if is_skipped i then [] else usable_address a

  abbrev pub opened : List SocketAddress → List ℕ
  opened [] = []
  opened (a ∷ addresses) = push_socket (socket_open a) [] ++ opened addresses

  abbrev pub usables : List Interface → List SocketAddress
  usables [] = []
  usables (i ∷ interfaces) = usable i.address i ++ usables interfaces

  take-nil : (xs : List ℕ) → length xs ≤ max_sockets → xs ≡ take max_sockets (xs ++ [])
  take-nil xs h = sym (take-all max_sockets xs h) ∙ ap (take max_sockets) (sym (append-nil xs))

  push_socket-append : (o : Option ℕ) (xs : List ℕ) → push_socket o xs ≡ xs ++ push_socket o []
  push_socket-append none xs = sym (append-nil xs)
  push_socket-append (some a) xs = refl

  length-push_socket : (o : Option ℕ) (xs : List ℕ) → length (push_socket o xs) ≤ suc (length xs)
  length-push_socket none xs = omega arith
  length-push_socket (some a) xs = omega (arith, length-append xs (a ∷ []))

  open_socket-take :
      (a : SocketAddress) (xs : List ℕ)
      → length xs ≤ max_sockets
      → open_socket a xs ≡ take max_sockets (xs ++ opened (a ∷ []))
  unfolding open_socket
  open_socket-take a xs h = elim (Bool-cases (ltb (length xs) max_sockets)) [
    | inl room ↦
        let short = length-push_socket (socket_open a) xs in
        rw room (
          sym (
            take-all max_sockets (push_socket (socket_open a) xs)
              (omega (arith, ltb→lt (length xs) max_sockets room, short)))
          ∙ ap (take max_sockets) (
              push_socket-append (socket_open a) xs
              ∙ ap (λ ys. xs ++ ys) (sym (append-nil (push_socket (socket_open a) [])))))
    | inr full ↦
        let exact : max_sockets ≤ length xs = ground (arith, full) in
        rw full
          (sym (take-append max_sockets xs (opened (a ∷ [])) exact ∙ take-all max_sockets xs h))
  ]

  visit_address-take :
      (a : SocketAddress) (s : Sockets)
      → length s.sockets ≤ max_sockets
      → (visit_address a s).sockets ≡ take max_sockets (s.sockets ++ opened (usable_address a))
  unfolding visit_address
  visit_address-take (inet a) s h = elim (Bool-cases (a == loopback)) [
    | inl e ↦ rw e (take-nil s.sockets h)
    | inr e ↦ rw e (open_socket-take (inet a) s.sockets h)
  ]
  visit_address-take (inet6 a scope) s h = elim (Bool-cases (scope == 0)) [
    | inr e ↦ rw e (take-nil s.sockets h)
    | inl e ↦ rw e (elim (Bool-cases ((a == localhost) || (a == localhost_mapped))) [
      | inl local ↦ rw local (take-nil s.sockets h)
      | inr remote ↦ rw remote (open_socket-take (inet6 a scope) s.sockets h)
    ])
  ]
  visit_address-take other_family s h = take-nil s.sockets h

  visit_interface-take :
      (o : Option SocketAddress) (i : Interface) (s : Sockets)
      → length s.sockets ≤ max_sockets
      → (visit_interface o i s).sockets ≡ take max_sockets (s.sockets ++ opened (usable o i))
  unfolding visit_interface
  visit_interface-take none i s h = take-nil s.sockets h
  visit_interface-take (some a) i s h = elim (Bool-cases (is_skipped i)) [
    | inl e ↦ rw e (take-nil s.sockets h)
    | inr e ↦ rw e (visit_address-take a s h)
  ]

  opened-append : (xs ys : List SocketAddress) → opened (xs ++ ys) ≡ opened xs ++ opened ys
  opened-append [] ys = refl
  opened-append (a ∷ xs) ys =
      ap (λ zs. push_socket (socket_open a) [] ++ zs) (opened-append xs ys)
      ∙ sym (append_assoc (push_socket (socket_open a) []) (opened xs) (opened ys))

  -- The sockets are those that could be opened on the usable addresses, in the order of the
  -- interfaces, as many as there is room for.
  pub open_loop-take :
      (interfaces : List Interface) (s : Sockets)
      → length s.sockets ≤ max_sockets
      → (open_loop interfaces s).sockets
        ≡ take max_sockets (s.sockets ++ opened (usables interfaces))
  unfolding open_loop
  open_loop-take [] s h = take-nil s.sockets h
  open_loop-take (i ∷ interfaces) s h =
      let step = visit_interface-take i.address i s h in
      let s₁ = visit_interface i.address i s in
      let few : length s₁.sockets ≤ max_sockets = omega (
        arith,
        ap length step,
        length-take max_sockets (s.sockets ++ opened (usable i.address i)),
      ) in
      open_loop-take interfaces s₁ few
      ∙ ap (λ xs. take max_sockets (xs ++ opened (usables interfaces))) step
      ∙ take-take_append max_sockets (s.sockets ++ opened (usable i.address i))
          (opened (usables interfaces))
      ∙ ap (take max_sockets) (
          append_assoc s.sockets (opened (usable i.address i)) (opened (usables interfaces))
          ∙ ap (λ xs. s.sockets ++ xs)
              (sym (opened-append (usable i.address i) (usables interfaces))))
