-- ===== src/Collector.antt =====
-- The events of include/collector.h. The parsers of src/collector.cpp and the two event sources
-- are the modules below.
pub mod Ptp4l
pub mod Phc2Sys
pub mod Pps
pub mod Lines
pub mod Buffers
pub mod Figures
pub mod Journal
pub mod Subprocess
pub mod Source
use time_agent.Base.{ℕ, Bytes}
use time_agent.Base.Int.{ℤ}

pub record CollectorEvent : Type 0 where
  pub ts_usec : ℕ
  pub unit : Bytes
  pub msg : Bytes

pub record PortEvent : Type 0 where
  pub unit : Bytes
  pub timestamp_us : ℕ
  pub port_number : ℤ
  pub port_name : Bytes
  pub adapter_name : Bytes
  pub from_state : Bytes
  pub to_state : Bytes
  pub trigger : Bytes

pub record ForeignMasterEvent : Type 0 where
  pub unit : Bytes
  pub timestamp_us : ℕ
  pub port_number : ℤ
  pub port_name : Bytes
  pub master_clock_identity : Bytes
  pub master_port_number : ℤ

pub record BestMasterEvent : Type 0 where
  pub unit : Bytes
  pub timestamp_us : ℕ
  pub master_clock_identity : Bytes
