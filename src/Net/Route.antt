-- ===== src/Net/Route.antt =====
-- The interface table of src/network/network.c and the subnet test of ip.c.
use cgos.Base.{
  ℕ, ◌≡◌, inl, inr, refl, sym, ap, subst, ◌∙◌, Bool, true, false, ◌&&◌, List, [], ◌∷◌, ◌++◌, leb,
  ◌==◌, if◌then◌else◌, length, Bool-cases, Option, none, some, bit_and, get_elem?,
}

-- MAX_NETWORK_INTERFACES
abbrev pub max_network_interfaces : ℕ
max_network_interfaces = 4

-- `network_interface_t`, without its name and its two function pointers.
pub record Interface : Type 0 where
  pub mac_address : List ℕ
  pub ip_address : ℕ
  pub subnet_mask : ℕ
  pub gateway : ℕ
  pub active : Bool

-- The table holds the interfaces themselves, in the order of their registration.
unfoldable pub network_register_interface : List Interface → Interface → Bool × List Interface
network_register_interface interfaces iface =
    if leb max_network_interfaces (length interfaces)
    then (false, interfaces)
    else (true, interfaces ++ (record iface { active = true } ∷ []))

unfoldable pub network_get_interface : List Interface → ℕ → Option Interface
network_get_interface interfaces index = get_elem? interfaces index

unfoldable pub network_find_interface_by_ip : List Interface → ℕ → Option Interface
network_find_interface_by_ip [] ip = none
network_find_interface_by_ip (iface ∷ rest) ip =
    if iface.active && (iface.ip_address == ip)
    then some iface
    else network_find_interface_by_ip rest ip

unfoldable pub ip_is_local : Interface → ℕ → Bool
ip_is_local iface ip_addr =
    bit_and iface.ip_address iface.subnet_mask == bit_and ip_addr iface.subnet_mask

-- The loop over the subnets.
unfoldable pub find_local : List Interface → ℕ → Option Interface
unfolding ip_is_local
find_local [] dest_ip = none
find_local (iface ∷ rest) dest_ip =
    if iface.active && ip_is_local iface dest_ip then some iface else find_local rest dest_ip

-- The loop of the default route.
unfoldable pub find_active : List Interface → Option Interface
find_active [] = none
find_active (iface ∷ rest) = if iface.active then some iface else find_active rest

unfoldable pub or_else : Option Interface → Option Interface → Option Interface
or_else none b = b
or_else (some a) b = some a

unfoldable pub network_find_route : List Interface → ℕ → Option Interface
unfolding find_local find_active or_else
network_find_route interfaces dest_ip =
    or_else (find_local interfaces dest_ip) (find_active interfaces)

-- Whether the address is in the subnet of an active interface, and whether one is active.
abbrev pub serves : ℕ → Interface → Bool
serves dest_ip iface = iface.active && ip_is_local iface dest_ip

abbrev pub None : (Interface → Bool) → List Interface → Type 0
None p [] = Unit
None p (iface ∷ rest) = (p iface ≡ false) × None p rest

-- The specification of a route: the first interface whose subnet has the address; if there is
-- none, the first active one; and nothing only if no interface is active.
pub data IsChosen (interfaces : List Interface) (dest_ip : ℕ) (r : Option Interface) : Type 0 where
  direct :
      (before after : List Interface) (iface : Interface)
      → interfaces ≡ before ++ (iface ∷ after)
      → None (serves dest_ip) before
      → serves dest_ip iface ≡ true
      → r ≡ some iface
      → IsChosen interfaces dest_ip r
  default :
      (before after : List Interface) (iface : Interface)
      → interfaces ≡ before ++ (iface ∷ after)
      → None (serves dest_ip) interfaces
      → None (λ i. i.active) before
      → iface.active ≡ true
      → r ≡ some iface
      → IsChosen interfaces dest_ip r
  unreachable : None (λ i. i.active) interfaces → r ≡ none → IsChosen interfaces dest_ip r

-- The first element that passes a test, or none.
data First (p : Interface → Bool) (interfaces : List Interface) (r : Option Interface)
    : Type 0 where
  found :
      (before after : List Interface) (iface : Interface)
      → interfaces ≡ before ++ (iface ∷ after)
      → None p before
      → p iface ≡ true
      → r ≡ some iface
      → First p interfaces r
  missed : None p interfaces → r ≡ none → First p interfaces r

First-cons :
    (p : Interface → Bool) (x : Interface) (xs : List Interface) (r : Option Interface)
    → p x ≡ false
    → First p xs r
    → First p (x ∷ xs) r
First-cons p x xs r e (found before after iface split none_before h same) =
    found (x ∷ before) after iface (ap (λ l. x ∷ l) split) (e, none_before) h same
First-cons p x xs r e (missed all same) = missed (e, all) same

find_local-First :
    (xs : List Interface) (dest_ip : ℕ) → First (serves dest_ip) xs (find_local xs dest_ip)
unfolding find_local
find_local-First [] dest_ip = missed tt refl
find_local-First (x ∷ xs) dest_ip = elim (Bool-cases (serves dest_ip x)) [
  | inl e ↦ rw e (found [] xs x refl tt e refl)
  | inr e ↦
      rw e
        (First-cons (serves dest_ip) x xs (find_local xs dest_ip) e (find_local-First xs dest_ip))
]

find_active-First : (xs : List Interface) → First (λ i. i.active) xs (find_active xs)
unfolding find_active
find_active-First [] = missed tt refl
find_active-First (x ∷ xs) = elim (Bool-cases x.active) [
  | inl e ↦
      subst (λ b. First (λ i. i.active) (x ∷ xs) (if b then some x else find_active xs)) (sym e)
        (found [] xs x refl tt e refl)
  | inr e ↦
      subst (λ b. First (λ i. i.active) (x ∷ xs) (if b then some x else find_active xs)) (sym e)
        (First-cons (λ i. i.active) x xs (find_active xs) e (find_active-First xs))
]

-- network_find_route returns the first interface whose subnet has the address, else the first
-- active interface, and nothing only if none is active.
pub find_route-IsChosen :
    (interfaces : List Interface) (dest_ip : ℕ)
    → IsChosen interfaces dest_ip (network_find_route interfaces dest_ip)
unfolding network_find_route or_else
find_route-IsChosen interfaces dest_ip =
    go (find_local-First interfaces dest_ip) (find_active-First interfaces)
  where
    go :
        First (serves dest_ip) interfaces (find_local interfaces dest_ip)
        → First (λ i. i.active) interfaces (find_active interfaces)
        → IsChosen interfaces dest_ip (network_find_route interfaces dest_ip)
    go (found before after iface split none_before h same) _ =
        direct before after iface split none_before h
          (ap (λ o. or_else o (find_active interfaces)) same)
    go (missed all same) (found before after iface split none_before h same') =
        default before after iface split all none_before h
          (ap (λ o. or_else o (find_active interfaces)) same ∙ same')
    go (missed all same) (missed all' same') =
        unreachable all' (ap (λ o. or_else o (find_active interfaces)) same ∙ same')
