-- ===== src/Collector/Buffers.antt =====
-- The variables into which the calls of `sscanf` in src/collector.cpp and
-- src/network_adapter_resolver.cpp store, in bytes and in the order of the arguments.
use time_agent.Base.{ℕ, List, [], ◌∷◌, Bytes, refl}
use time_agent.Scanf.{sscanf, literal, literal_byte}
use time_agent.Scanf.Stores.{AllWithin, sscanf-AllWithin}
use time_agent.Collector.Ptp4l
use time_agent.Collector.Phc2Sys
use time_agent.Collector.Pps
use time_agent.Resolver.{pci_format}

-- `double timestamp` and three members of type `int64_t`.
abbrev pub rms_variables : List ℕ
rms_variables = 8 ∷ 8 ∷ 8 ∷ 8 ∷ []

-- `double timestamp`, and the members `offset`, `state`, `freq` and `path_delay`.
abbrev pub offset_variables : List ℕ
offset_variables = 8 ∷ 8 ∷ 4 ∷ 8 ∷ 8 ∷ []

-- `char portName[128], fromState[64], toState[64], trigger[128]`
abbrev pub port_variables : List ℕ
port_variables = 8 ∷ 4 ∷ 128 ∷ 64 ∷ 64 ∷ 128 ∷ []

-- `char portName[128], masterClockIdentity[64]`
abbrev pub foreign_variables : List ℕ
foreign_variables = 8 ∷ 4 ∷ 128 ∷ 64 ∷ 4 ∷ []

-- `char masterClockIdentity[64]`
abbrev pub best_variables : List ℕ
best_variables = 8 ∷ 64 ∷ []

abbrev pub pps_variables : List ℕ
pps_variables = 8 ∷ 8 ∷ 8 ∷ []

abbrev pub pci_variables : List ℕ
pci_variables = 4 ∷ 4 ∷ 4 ∷ 4 ∷ []

-- What the calls in `Ptp4lParser`, `Phc2SysParser`, `PPSParser` and `parsePciAddress` store.
pub record IsWithin (s : Bytes) : Type 0 where
  pub ptp4l_rms : AllWithin rms_variables (sscanf s Ptp4l.rms_format)
  pub ptp4l_offset : AllWithin offset_variables (sscanf s Ptp4l.offset_format)
  pub port : AllWithin port_variables (sscanf s Ptp4l.port_format)
  pub foreign : AllWithin foreign_variables (sscanf s Ptp4l.foreign_format)
  pub best : AllWithin best_variables (sscanf s Ptp4l.best_format)
  pub local : AllWithin best_variables (sscanf s Ptp4l.local_format)
  pub phc2sys_rms : AllWithin rms_variables (sscanf s Phc2Sys.rms_format)
  pub phc2sys_offset : AllWithin offset_variables (sscanf s Phc2Sys.offset_format)
  pub pps : AllWithin pps_variables (sscanf s Pps.pps_format)
  pub pci : AllWithin pci_variables (sscanf s pci_format)

-- No call of `sscanf` in the program stores outside of the variables that it is given, whatever the
-- text, and whether or not the line is one that the parser accepts: each text with its NUL fits its
-- array, and each integer is in the range of its type.
pub sscanf-IsWithin : (s : Bytes) → IsWithin s
unfolding literal literal_byte
sscanf-IsWithin s = record {
  ptp4l_rms = sscanf-AllWithin _ Ptp4l.rms_format s (refl, (refl, (refl, (refl, tt))));
  ptp4l_offset =
      sscanf-AllWithin _ Ptp4l.offset_format s (refl, (refl, (refl, (refl, (refl, tt)))));
  port = sscanf-AllWithin _ Ptp4l.port_format s (refl, (refl, (refl, (refl, (refl, (refl, tt))))));
  foreign = sscanf-AllWithin _ Ptp4l.foreign_format s (refl, (refl, (refl, (refl, (refl, tt)))));
  best = sscanf-AllWithin _ Ptp4l.best_format s (refl, (refl, tt));
  local = sscanf-AllWithin _ Ptp4l.local_format s (refl, (refl, tt));
  phc2sys_rms = sscanf-AllWithin _ Phc2Sys.rms_format s (refl, (refl, (refl, (refl, tt))));
  phc2sys_offset =
      sscanf-AllWithin _ Phc2Sys.offset_format s (refl, (refl, (refl, (refl, (refl, tt)))));
  pps = sscanf-AllWithin _ Pps.pps_format s (refl, (refl, (refl, tt)));
  pci = sscanf-AllWithin _ pci_format s (refl, (refl, (refl, (refl, tt))));
}
