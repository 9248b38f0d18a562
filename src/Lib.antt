-- ===== src/Lib.antt =====
-- time-agent: a daemon that follows the time services of a host (ptp4l, phc2sys, ppswatch) and the
-- host itself, and sends what it sees to an analyser.
--
-- The parts and the modules that model them. Base, Text, Number and Scanf hold what the sources use
-- of the standard library, over texts as lists of bytes: `std::string` searches and streams,
-- `std::stoi` and `std::from_chars`, and the `sscanf` directives of the parsers.
--   Main         src/main.cpp: `makeCollector`, the collectors that `main` starts, and in Program
--                `main` itself up to the start of the readers; Meanings and LinesToWire
--                bring the parts together, from the lines of the time services to the
--                effects and the messages on the wire, and Child from the output of a
--                child to the effects.
--   Logging      include/logging.h: the logger that is installed, and the shutdown of the library.
--   Config       src/config.cpp, include/config.h: the records, `ConfigLoader` over a YAML library
--                that is a parameter; an `int` that the source leaves uninitialised is `none`.
--   Collector    src/collector.cpp, include/collector.h: the events, the parsers of lines (Ptp4l,
--                Phc2Sys, Pps) with the lines as ptp4l, phc2sys and ppswatch print them, the
--                variables that they store into (Buffers), and the event sources (Journal,
--                Subprocess) behind the interface of Source.
--   Agent        src/agent.cpp: the handlers of events, as functions to lists of effects, in
--                Agent/Setup the constructor and the choice of the readers, and in Agent/Threads the
--                threads, as a step relation on their shared state; Agent/Threads/Loop has the loop
--                of one reader as a function.
--   Convert      src/adapter.cpp, include/timestamp_utils.h: samples to messages. The messages are
--                generated from a protocol that is not in the repository; their records hold the
--                values that the sources pass to the setters.
--   Adapter      src/adapter.cpp, include/adapter.h: the methods that send, and in Socket the
--                constructor and the destructor over the library of the socket.
--   Topology     src/ptp_topology.cpp: identities, the parser of the output of `pmc`, the collector;
--                Fields and Grouping describe what the parser's loops find.
--   SysMetrics   src/system_metrics.cpp: the snapshot of the host, made of Temperature, Network,
--                Procfs/Cpu and Procfs/Memory, over the system calls of Os.
--   Resolver     src/network_adapter_resolver.cpp: the name of a network adapter, and in Names the
--                address that a driver tells.
--   Tests        runs on concrete inputs.
--
-- How they interact: `main` reads the configuration and builds the collectors; the agent runs one
-- reader thread for each, which calls `readEvent` and hands the event to its handler; the handler
-- parses the line, may set the interface that the network collector watches, and sends a sample
-- through the adapter. One more thread collects the snapshot of the host periodically.
--
-- Conventions. Fallible code returns an Option; an exception is `none`, or a constructor of its own
-- where the source does not catch it (Temperature). 64-bit and 32-bit integers are numbers with the
-- wrap-around written out (Base/Int). `double` and its conversions are the parameter Floating.
-- Loops are structural recursion, but for `findLinePrefix` and the printing of numbers, which take
-- fuel: the length of the buffer, as each round drops a byte, and one more than the number, as each
-- round drops a digit.
--
-- Not modelled: log messages, the delivery of signals by the system, the rest of `main` after `run`
-- has returned, and the unit tests. Libraries (journal, Boost.Process, yaml-cpp, protobuf, ZeroMQ,
-- libpci, spdlog) and the operating system are parameters or inputs.
pub mod Base
pub mod Text
pub mod Number
pub mod Scanf
pub mod Metrics
pub mod Collector
pub mod Floating
pub mod Config
pub mod Topology
pub mod Main
pub mod Procfs
pub mod Os
pub mod Network
pub mod Temperature
pub mod SysMetrics
pub mod Convert
pub mod Adapter
pub mod Logging
pub mod Agent
pub mod Resolver
pub mod Tests
