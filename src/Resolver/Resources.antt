-- ===== src/Resolver/Resources.antt =====
-- What `resolve` acquires and releases.
use time_agent.Base.{
  ℕ, Bool, true, false, List, [], ◌∷◌, ◌++◌, Option, none, some, Bytes, inl, inr, Bool-cases,
  append_assoc,
}
use time_agent.Resolver.{
  PciAddress, PciDevice, Call, open_socket, close_socket, pci_alloc, pci_cleanup, get_device,
  free_device, parse_pci_address, get_bus_info, lookup_adapter_name, resolve, with_address,
  with_device, looked_up,
}

-- The calls take each resource at most once more than they give it back, give back the last one
-- first, and leave the stack of resources held as it was.
pub data IsBalanced : List Call → Type 0 where
  nothing : IsBalanced []
  socket :
      {inner rest : List Call}
      → IsBalanced inner
      → IsBalanced rest
      → IsBalanced (open_socket ∷ (inner ++ close_socket ∷ rest))
  access :
      {inner rest : List Call}
      → IsBalanced inner
      → IsBalanced rest
      → IsBalanced (pci_alloc ∷ (inner ++ pci_cleanup ∷ rest))
  device :
      {inner rest : List Call}
      → IsBalanced inner
      → IsBalanced rest
      → IsBalanced (get_device ∷ (inner ++ free_device ∷ rest))

IsBalanced-append : {xs ys : List Call} → IsBalanced xs → IsBalanced ys → IsBalanced (xs ++ ys)
IsBalanced-append nothing b = b
IsBalanced-append (socket {inner} {rest} a r) b = rw append_assoc (socket a (IsBalanced-append r b))
IsBalanced-append (access {inner} {rest} a r) b = rw append_assoc (access a (IsBalanced-append r b))
IsBalanced-append (device {inner} {rest} a r) b = rw append_assoc (device a (IsBalanced-append r b))

get_bus_info-IsBalanced :
    (has_socket : Bool) (drvinfo : Bytes → Option Bytes) (name : Bytes)
    → IsBalanced (get_bus_info has_socket drvinfo name).1
unfolding get_bus_info
get_bus_info-IsBalanced true drvinfo name = socket nothing nothing
get_bus_info-IsBalanced false drvinfo name = nothing

module _ (has_access : Bool) (get_dev : PciAddress → Option PciDevice) (vendor_name : ℕ → Bytes)
    (device_name : ℕ → ℕ → Bytes) where
  with_device-IsBalanced :
      (d : Option PciDevice)
      → IsBalanced (with_device has_access get_dev vendor_name device_name d).1
  unfolding with_device
  with_device-IsBalanced none = access nothing nothing
  with_device-IsBalanced (some d) = access (device nothing nothing) nothing

  with_address-IsBalanced :
      (a : Option PciAddress)
      → IsBalanced (with_address has_access get_dev vendor_name device_name a).1
  unfolding with_address
  with_address-IsBalanced none = nothing
  with_address-IsBalanced (some a) = elim (Bool-cases has_access) [
    | inl t ↦ rw t (with_device-IsBalanced (get_dev a))
    | inr f ↦ rw f nothing
  ]

  looked_up-IsBalanced :
      (has_socket : Bool) (drvinfo : Bytes → Option Bytes) (o : Option Bytes) (calls : List Call)
      → IsBalanced calls
      → IsBalanced
          (looked_up has_access get_dev vendor_name device_name has_socket drvinfo (o, calls)).1
  unfolding looked_up lookup_adapter_name
  looked_up-IsBalanced has_socket drvinfo none calls b = b
  looked_up-IsBalanced has_socket drvinfo (some info) calls b =
      IsBalanced-append b (with_address-IsBalanced (parse_pci_address info))

  -- Whatever fails on the way to the name of an adapter, an exception included, `resolve` gives back
  -- the socket, the access to the PCI library and the device that it has acquired, each once and the
  -- last one first.
  pub resolve-IsBalanced :
      (has_socket : Bool) (drvinfo : Bytes → Option Bytes) (interface_name : Bytes)
      → IsBalanced
          (resolve has_access get_dev vendor_name device_name has_socket drvinfo interface_name).1
  unfolding resolve
  resolve-IsBalanced has_socket drvinfo interface_name =
      let (info, calls) = get_bus_info has_socket drvinfo interface_name in
      looked_up-IsBalanced has_socket drvinfo info calls
        (get_bus_info-IsBalanced has_socket drvinfo interface_name)
