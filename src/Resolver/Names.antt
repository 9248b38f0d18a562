-- ===== src/Resolver/Names.antt =====
-- Which name `resolve` gives for an interface whose driver tells its PCI address.
use time_agent.Base.{
  ℕ, suc, ◌^◌, List, ◌<◌, Bool, true, false, ◌&&◌, ◌||◌, [], ◌∷◌, ◌++◌, ◌≡◌, refl, ap, ◌∙◌, Option,
  none, some, Bytes, codes, arith, equal, is_empty, take, AllPass, if◌then◌else◌, Option-cases, inl,
  inr,
}
use time_agent.Base.Int.{two_32}
use time_agent.Number.{is_digit, is_hex}
use time_agent.Number.Hex.{hex, goes_on, hex-digits, read_hex-hex}
use time_agent.Text.Split.{StopsAt}
use time_agent.Scanf.{
  Directive, item, x32, unsigned, c_str, scan, scan_item, sscanf, literal, literal_byte,
}
use time_agent.Scanf.Steps.{has_no_nul, has_no_nul-append, c_str_id}
use time_agent.Resolver.{
  PciAddress, PciDevice, pci_format, parse_pci_address, lookup_adapter_name, show_rev, get_bus_info,
  resolve,
}

abbrev function_part : PciAddress → Bytes
function_part a = codes "." ++ (hex 1 a.function ++ [])

abbrev device_part : PciAddress → Bytes
device_part a = codes ":" ++ (hex 2 a.device ++ function_part a)

abbrev bus_part : PciAddress → Bytes
bus_part a = codes ":" ++ (hex 2 a.bus ++ device_part a)

-- "%04x:%02x:%02x.%x", as the drivers print the address.
abbrev pub print_address : PciAddress → Bytes
print_address a = hex 4 a.domain ++ bus_part a

pub record IsAddress (a : PciAddress) : Type 0 where
  pub domain_fits : a.domain < 65536
  pub bus_fits : a.bus < 256
  pub device_fits : a.device < 32
  pub function_fits : a.function < 8

abbrev function_format : List Directive
function_format = literal "." ++ item x32 ∷ []

abbrev device_format : List Directive
device_format = literal ":" ++ item x32 ∷ function_format

abbrev bus_format : List Directive
bus_format = literal ":" ++ item x32 ∷ device_format

scan-hex :
    (ds : List Directive) (w n : ℕ) (rest : Bytes)
    → n < 16 ^ suc w
    → n < two_32
    → StopsAt goes_on rest
    → scan (item x32 ∷ ds) (hex (suc w) n ++ rest) ≡ unsigned n ∷ scan ds rest
unfolding scan scan_item
scan-hex ds w n rest h fits k = rw (scan, scan_item, read_hex-hex w n rest h fits k) refl

hex-has_no_nul : (s : Bytes) → AllPass is_hex s → has_no_nul s ≡ true
unfolding is_hex is_digit
hex-has_no_nul [] h = refl
hex-has_no_nul (c ∷ s) h = ground (arith, hex-has_no_nul s h.1)

module _ (a : PciAddress) (h : IsAddress a) where
  scan-address :
      scan pci_format (print_address a)
      ≡ unsigned a.domain ∷ unsigned a.bus ∷ unsigned a.device ∷ unsigned a.function ∷ []
  unfolding scan literal literal_byte is_hex is_digit
  scan-address =
      scan-hex bus_format 3 a.domain (bus_part a) (omega (arith, h.domain_fits))
        (omega (arith, h.domain_fits)) refl
      ∙ ap (◌∷◌ (unsigned a.domain)) (
          scan-hex device_format 1 a.bus (device_part a) (omega (arith, h.bus_fits))
            (omega (arith, h.bus_fits)) refl
          ∙ ap (◌∷◌ (unsigned a.bus)) (
              scan-hex function_format 1 a.device (function_part a) (omega (arith, h.device_fits))
                (omega (arith, h.device_fits)) refl
              ∙ ap (◌∷◌ (unsigned a.device)) (
                  scan-hex [] 0 a.function [] (omega (arith, h.function_fits))
                    (omega (arith, h.function_fits)) tt)))

  print_address-has_no_nul : has_no_nul (print_address a) ≡ true
  print_address-has_no_nul =
      has_no_nul-append (hex 4 a.domain) _ (hex-has_no_nul _ (hex-digits 4 a.domain)) (
        has_no_nul-append (hex 2 a.bus) _ (hex-has_no_nul _ (hex-digits 2 a.bus)) (
          has_no_nul-append (hex 2 a.device) _ (hex-has_no_nul _ (hex-digits 2 a.device)) (
            has_no_nul-append (hex 1 a.function) [] (hex-has_no_nul _ (hex-digits 1 a.function))
              refl)))

  parse_pci_address-print : parse_pci_address (print_address a) ≡ some a
  unfolding parse_pci_address sscanf
  parse_pci_address-print =
      rw (c_str_id (print_address a) print_address-has_no_nul, scan-address) refl

  -- The text is not taken for a missing one.
  print_address-usable :
      (is_empty (print_address a) || equal (print_address a) (codes "N/A")) ≡ false
  unfolding hex equal
  print_address-usable = ground arith

module _ (has_access : Bool) (get_dev : PciAddress → Option PciDevice) (vendor_name : ℕ → Bytes)
    (device_name : ℕ → ℕ → Bytes) where
  -- The vendor, the device and the revision of a device that can be identified.
  abbrev pub name_of : Option PciDevice → Bytes
  name_of none = []
  name_of (some d) =
      if d.has_ident
      then vendor_name d.vendor_id
        ++ (codes " "
            ++ (device_name d.vendor_id d.device_id
                ++ (codes " (rev " ++ (show_rev d.rev_id ++ codes ")"))))
      else []

  -- Where the driver of an interface tells a PCI address in the usual form, under the first 15 bytes of
  -- the name, `resolve` gives the name of the device that the library has at this address, or an empty
  -- text if there is none or it cannot be identified, or there is no socket or no access to the bus.
  pub resolve-print_address :
      (has_socket : Bool) (drvinfo : Bytes → Option Bytes) (interface_name : Bytes) (a : PciAddress)
      → IsAddress a
      → drvinfo (take 15 (c_str interface_name)) ≡ some (print_address a)
      → (resolve has_access get_dev vendor_name device_name has_socket drvinfo interface_name).0
        ≡ (if has_socket && has_access then name_of (get_dev a) else [])
  unfolding resolve get_bus_info lookup_adapter_name
  resolve-print_address false drvinfo interface_name a h e = refl
  resolve-print_address true drvinfo interface_name a h e =
      rw
        (
          e,
          c_str_id (print_address a) (print_address-has_no_nul a h),
          print_address-usable a h,
          parse_pci_address-print a h,
        )
        (elim (Option-cases (get_dev a)) [
          | inl n ↦ rw n (ground arith)
          | inr (d, n) ↦ rw n (ground arith)
        ])
