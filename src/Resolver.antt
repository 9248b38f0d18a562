-- ===== src/Resolver.antt =====
-- `NetworkAdapterResolver`, src/network_adapter_resolver.cpp. The socket, the ioctl and the PCI
-- library are parameters. The acquisitions that succeed and the releases are listed in order.
pub mod Resources
pub mod Names
use time_agent.Base.{
  ℕ, ◌+◌, ◌-◌, ◌/◌, ◌%◌, Bool, true, false, ◌||◌, List, [], ◌∷◌, ◌++◌, Option, none, some, Bytes,
  codes, equal, ltb, if◌then◌else◌, is_empty, take, ◌>>=◌,
}
use time_agent.Number.Hex.{hex_char}
use time_agent.Scanf.{Directive, Value, unsigned, item, x32, c_str, sscanf, literal}

pub record PciAddress : Type 0 where
  pub domain : ℕ
  pub bus : ℕ
  pub device : ℕ
  pub function : ℕ

-- A device as the PCI library shows it; `has_ident` is `fillResult & PCI_FILL_IDENT`.
pub record PciDevice : Type 0 where
  pub has_ident : Bool
  pub vendor_id : ℕ
  pub device_id : ℕ
  pub rev_id : ℕ

pub data Call : Type 0 where
  open_socket close_socket pci_alloc pci_cleanup get_device free_device : Call

-- `none` where the code throws, which `resolve` catches.
abbrev pub Attempt : Type 0 → Type 0
Attempt A = Option A × List Call

-- `FileDescriptor`: whether it holds a descriptor, which `fd_ >= 0` tests.
pub record FileDescriptor : Type 0 where
  pub held : Bool

-- Its destructor.
unfoldable pub close_descriptor : FileDescriptor → List Call
close_descriptor d = if d.held then close_socket ∷ [] else []

-- "%x:%x:%x.%x"
abbrev pub pci_format : List Directive
pci_format =
    item x32
    ∷ (literal ":" ++ item x32 ∷ (literal ":" ++ item x32 ∷ (literal "." ++ item x32 ∷ [])))

pci_address : List Value → Option PciAddress
pci_address (unsigned d ∷ unsigned b ∷ unsigned v ∷ unsigned f ∷ []) =
    some (record { domain = d; bus = b; device = v; function = f })
pci_address _ = none

unfoldable pub parse_pci_address : Bytes → Option PciAddress
unfolding pci_address
parse_pci_address bus_info = pci_address (sscanf bus_info pci_format)

-- `std::hex << std::setw(2) << std::setfill('0')` of a `uint8_t`.
unfoldable pub show_rev : ℕ → Bytes
show_rev n = hex_char (n / 16) ∷ hex_char (n % 16) ∷ []

abbrev usable : Bytes → Option Bytes
usable info = if is_empty info || equal info (codes "N/A") then none else some info

-- `has_socket`: `socket` succeeds. `drvinfo`: the bus info that the ioctl delivers for a name of at
-- most IFNAMSIZ - 1 bytes, `none` if it fails.
module _ (has_socket : Bool) (drvinfo : Bytes → Option Bytes) where
  abbrev opening : Bool → List Call
  opening true = open_socket ∷ []
  opening false = []

  -- The destructor of the descriptor runs on every way out.
  unfoldable pub get_bus_info : Bytes → Attempt Bytes
  unfolding close_descriptor
  get_bus_info interface_name =
      let socket_fd : FileDescriptor = record { held = has_socket } in
      let calls = opening has_socket ++ close_descriptor socket_fd in
      if has_socket
      then (do info ← drvinfo (take 15 (c_str interface_name)); usable (c_str info), calls)
      else (none, calls)

-- `has_access`: `pci_alloc` succeeds. `get_dev`: the device at an address. `vendor_name` and
-- `device_name`: the names in the database of PCI identifiers.
module _ (has_access : Bool) (get_dev : PciAddress → Option PciDevice) (vendor_name : ℕ → Bytes)
    (device_name : ℕ → ℕ → Bytes) where
  adapter_name : PciDevice → Bytes
  adapter_name d =
      vendor_name d.vendor_id
      ++ (codes " "
          ++ (device_name d.vendor_id d.device_id
              ++ (codes " (rev " ++ (show_rev d.rev_id ++ codes ")"))))

  with_device : Option PciDevice → Attempt Bytes
  unfolding adapter_name
  with_device none = (none, pci_alloc ∷ pci_cleanup ∷ [])
  with_device (some d) = (
    if d.has_ident then some (adapter_name d) else none,
    pci_alloc ∷ get_device ∷ free_device ∷ pci_cleanup ∷ [],
  )

  with_address : Option PciAddress → Attempt Bytes
  unfolding with_device
  with_address none = (none, [])
  with_address (some a) = if has_access then with_device (get_dev a) else (none, [])

  unfoldable pub lookup_adapter_name : Bytes → Attempt Bytes
  unfolding with_address
  lookup_adapter_name bus_info = with_address (parse_pci_address bus_info)

  module _ (has_socket : Bool) (drvinfo : Bytes → Option Bytes) where
    looked_up : Attempt Bytes → Attempt Bytes
    looked_up (none, calls) = (none, calls)
    looked_up (some info, calls) =
        let (name, more) = lookup_adapter_name info in (name, calls ++ more)

    abbrev or_empty : Option Bytes → Bytes
    or_empty none = []
    or_empty (some s) = s

    -- The name, empty on any exception, and the calls made.
    unfoldable pub resolve : Bytes → Bytes × List Call
    unfolding looked_up lookup_adapter_name get_bus_info
    resolve interface_name =
        let (name, calls) = looked_up (get_bus_info has_socket drvinfo interface_name) in
        (or_empty name, calls)
