-- ===== src/Tests/Lines.antt =====
-- A line of ptp4l, as the tests of the repository have it, and a line of phc2sys.
use time_agent.Base.{arith, true, List, [], ◌∷◌, ◌≡◌, refl, some, none, codes}
use time_agent.Base.Int.{pos}
use time_agent.Text.{is_space, contains, starts_with}
use time_agent.Number.{is_digit, show}
use time_agent.Collector.{CollectorEvent}
use time_agent.Collector.Ptp4l.Line.Port.{PortLine}
use time_agent.Collector.Ptp4l.Line.Port as Port
use time_agent.Adapter.{port_event}
use time_agent.Agent.{Effect, set_interface, send, Context, handler}
use time_agent.Agent.Handlers.Lines.{port, print, handler-print}

abbrev pub port_line : PortLine
port_line = record {
  seconds = 1878;
  fraction = codes "505";
  number = 1;
  name = codes "eth1";
  from = codes "UNCALIBRATED";
  to = codes "SLAVE";
  trigger = codes "MASTER_CLOCK_SELECTED";
}

port_line-print :
    print (port port_line)
    ≡ codes "[1878.505] port 1 (eth1): UNCALIBRATED to SLAVE on MASTER_CLOCK_SELECTED"
unfolding show
port_line-print = refl

pub port_line-IsPrintable : Port.IsPrintable port_line
unfolding is_digit is_space
port_line-IsPrintable = record {
  fraction_digits = (refl, (refl, (refl, tt)));
  number_fits = refl;
  name_short = record {
    bytes = (refl, (refl, (refl, (refl, tt))));
    some_byte = λ e. cc;
    short = omega arith;
    no_nul = refl;
  };
  from_short = record {
    bytes = (
      refl,
      (refl, (refl, (refl, (refl, (refl, (refl, (refl, (refl, (refl, (refl, (refl, tt))))))))))),
    );
    some_byte = λ e. cc;
    short = omega arith;
    no_nul = refl;
  };
  to_short = record {
    bytes = (refl, (refl, (refl, (refl, (refl, tt)))));
    some_byte = λ e. cc;
    short = omega arith;
    no_nul = refl;
  };
  trigger_short = record {
    bytes = (
      refl,
      (
        refl,
        (
          refl,
          (
            refl,
            (
              refl,
              (
                refl,
                (
                  refl,
                  (
                    refl,
                    (
                      refl,
                      (
                        refl,
                        (
                          refl,
                          (
                            refl,
                            (
                              refl,
                              (refl, (refl, (refl, (refl, (refl, (refl, (refl, (refl, tt)))))))),
                            ),
                          ),
                        ),
                      ),
                    ),
                  ),
                ),
              ),
            ),
          ),
        ),
      ),
    );
    some_byte = λ e. cc;
    short = omega arith;
    no_nul = refl;
  };
  trigger_begins = refl;
}

abbrev event : CollectorEvent
event = record { ts_usec = 7; unit = codes "ptp4l"; msg = print (port port_line) }

abbrev context : Context
context = record {
  node = codes "n";
  resolve = λ name. codes "Intel";
  topology_enabled = true;
  collect_topology = none;
  unset = 0;
}

handler-print_example :
    (h : Context → CollectorEvent → List (Effect Unit)) × (handler (codes "ptp4l") ≡ some h)
    × (h context event
        ≡ set_interface (codes "eth1")
          ∷ send
              (port_event (record {
                unit = codes "ptp4l";
                timestamp_us = 7;
                port_number = pos 1;
                port_name = codes "eth1";
                adapter_name = codes "Intel";
                from_state = codes "UNCALIBRATED";
                to_state = codes "SLAVE";
                trigger = codes "MASTER_CLOCK_SELECTED";
              }))
              (codes "n")
          ∷ [])
unfolding contains starts_with
handler-print_example = handler-print context event (port port_line) port_line-IsPrintable refl
