-- ===== src/Tests/Inputs.antt =====
-- Runs on lines, identities, services and events.
use time_agent.Base.{
  true, false, [], ◌∷◌, ◌++◌, ◌≡◌, ◌≢◌, ◌↔◌, refl, none, some, Bytes, String, codes, equal, map,
  arith, if◌then◌else◌,
}
use time_agent.Base.Int.{pos}
use time_agent.Number.{show}
use time_agent.Text.{first_token, is_space}
use time_agent.Text.Token.{IsWord, first_token-word}
use time_agent.Topology.{parse_port_number, parse_clock_identity}
use time_agent.Topology.Identity.{parse_identity}
use time_agent.Config.{ServiceConfig, AgentConfig, fresh_config}
use time_agent.Config.Loader.{
  Yaml, Access, throws, undefined, found, load, load_root, section, read_services, add_service,
  read_service,
}
use time_agent.Config.Loader.Services.{AreServices, load-AreServices}
use time_agent.Main.{make_collector, build_collectors}
use time_agent.Main.{subprocess}
use time_agent.Main.Device.{ptp4l_without_interface}
use time_agent.Main.Sources.{
  IsKnown, make_collector-IsKnown, find_collector, last_for, build_collectors-last,
}
use time_agent.Procfs.{Source, holds}
use time_agent.Procfs.Memory
use time_agent.Collector.Journal.{Round, await_entry, entry}
use time_agent.Collector.Journal.Waiting.{ready, await_entry-first}
use time_agent.Collector.Subprocess.{Subprocess}
use time_agent.Collector.Subprocess.Stream.{read_all, msg_of, read_all-until_empty}

first_token-word_example : first_token (codes "SLAVE" ++ b' ' ∷ codes "x") ≡ codes "SLAVE"
unfolding is_space
first_token-word_example =
    first_token-word (codes "SLAVE") b' ' (codes "x") (refl, (refl, (refl, (refl, (refl, tt)))))
      (λ h. cc) refl

abbrev clock : Bytes
clock = codes "a1-b2"

clock-IsWord : IsWord clock
unfolding is_space
clock-IsWord = (refl, (refl, (refl, (refl, (refl, tt)))))

parse_identity_example :
    (parse_clock_identity (clock ++ b'-' ∷ show 12) ≡ clock)
    × (parse_port_number (clock ++ b'-' ∷ show 12) ≡ some (pos 12))
parse_identity_example = parse_identity clock 12 clock-IsWord (omega arith)

data Place : Type 0 where
  root services ptp4l source : Place

-- A file with the node `services`, which has the node `ptp4l`, whose source is "journal".
abbrev child_node : Place → String → Access Place
child_node root k = if equal (codes k) (codes "services") then found services else undefined
child_node services k = if equal (codes k) (codes "ptp4l") then found ptp4l else undefined
child_node ptp4l k = if equal (codes k) (codes "source") then found source else undefined
child_node source k = throws

abbrev yaml : Yaml
yaml = record {
  Node = Place;
  load_file = λ path. some root;
  get = child_node;
  as_string = λ n. some (codes "journal");
  as_int = λ n. none;
  as_bool = λ n. none;
  elements = λ n. [];
}

abbrev journal_service : ServiceConfig
journal_service = record { on = false; name = codes "ptp4l"; source = codes "journal"; dev = [] }

abbrev loaded : AgentConfig
loaded = record fresh_config { service = journal_service ∷ [] }

loads : load yaml [] ≡ some loaded
unfolding equal load load_root section read_services add_service read_service
loads = refl

load-AreServices_example : AreServices loaded.service
load-AreServices_example = load-AreServices yaml [] loads

make_collector-IsKnown_example : (make_collector journal_service ≢ none) ↔ IsKnown journal_service
make_collector-IsKnown_example = make_collector-IsKnown journal_service

build_collectors-last_example :
    find_collector (codes "ptp4l") (
      build_collectors (λ c. true) [] (record journal_service { on = true } ∷ journal_service ∷ []))
    ≡ last_for
        (λ c. true)
        (codes "ptp4l")
        (record journal_service { on = true } ∷ journal_service ∷ [])
        none
build_collectors-last_example =
    build_collectors-last (λ c. true) (codes "ptp4l")
      (record journal_service { on = true } ∷ journal_service ∷ [])

abbrev idle_round : Round
idle_round = record { next = pos 0; stop_requested = false; wait = pos 1 }

abbrev last_round : Round
last_round = record { next = pos 1; stop_requested = true; wait = pos 0 }

await_entry-first_example : await_entry (idle_round ∷ last_round ∷ []) ≡ entry
await_entry-first_example =
    await_entry-first (idle_round ∷ []) [] last_round (ready 0 refl) ((refl, refl, (1, refl)), tt)

abbrev child : Subprocess
child = record {
  unit = codes "ptp4l";
  stream = codes "a" ∷ [] ∷ codes "b" ∷ [];
  child_running = true;
}

read_all-until_empty_example : map msg_of (read_all (1 ∷ 2 ∷ 3 ∷ 4 ∷ []) child) ≡ codes "a" ∷ []
read_all-until_empty_example = read_all-until_empty (1 ∷ 2 ∷ 3 ∷ 4 ∷ []) child (omega arith)

abbrev child_yaml : Yaml
child_yaml = record {
  Node = Place;
  load_file = λ path. some root;
  get = child_node;
  as_string = λ n. some (codes "subproccess");
  as_int = λ n. none;
  as_bool = λ n. none;
  elements = λ n. [];
}

abbrev child_service : ServiceConfig
child_service = record journal_service { source = codes "subproccess" }

child_loads : load child_yaml [] ≡ some (record fresh_config { service = child_service ∷ [] })
unfolding equal load load_root section read_services add_service read_service
child_loads = refl

ptp4l_without_interface_example :
    make_collector child_service
    ≡ some (
        subprocess (codes "ptp4l") (
          codes "/usr/bin/stdbuf"
          ∷ codes "-oL"
          ∷ codes "ptp4l"
          ∷ codes "-i"
          ∷ []
          ∷ codes "-s"
          ∷ codes "-m"
          ∷ []))
ptp4l_without_interface_example =
    ptp4l_without_interface child_yaml [] [] [] child_service child_loads refl refl refl

abbrev meminfo : Source
meminfo = holds (codes "MemFree:  12 kB" ++ b'\n' ∷ codes "Buffers: 7 kB")
